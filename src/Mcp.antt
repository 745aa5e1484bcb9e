-- ===== src/Mcp.antt =====
-- mcp: the Model Context Protocol server.
pub mod Json
pub mod JsonRpc
pub mod ClientMeta
pub mod ClientCapabilities
pub mod Methods
pub mod Pagination
pub mod Protocol
pub mod SessionStore
pub mod SseConnections
pub mod Tests
