-- ===== src/OAuth.antt =====
-- auth: the OAuth provider's checks and endpoints.
pub mod Parameters
pub mod Scopes
pub mod Clients
pub mod Resource
pub mod Header
pub mod ClientAuth
pub mod Token
pub mod TokenEndpoint
pub mod Tests
pub mod Authorize
pub mod Callback
pub mod ExpiringCache
pub mod Bearer
pub mod Jwt
pub mod ClientAssertion
pub mod Pkce
