-- ===== src/Lib.antt =====
-- Encore MCP Base: an OAuth authorization server, a Model Context Protocol (MCP) server that its
-- tokens protect, and the store behind both. This library models the core of the server's
-- TypeScript and proves what makes it correct. Paths are from the repository's root.
--
-- The parts and how they interact:
--   A client begins a login at `GET /oauth/authorize`. Its request is validated
--   (auth/authorize.ts) and kept as an upstream authorization state while the user logs in at the
--   identity provider. `GET /oauth/callback` (auth/endpoints.upstream-callback.ts) consumes the
--   state and creates an authorization code. `POST /oauth/token` (auth/token.ts) authenticates the
--   client and exchanges the code, or a refresh token, for tokens. MCP requests come as JSON-RPC
--   messages (mcp/protocol.ts) in sessions (mcp/session-store.ts). Codes, tokens, states, sessions
--   and rate limits live in one store (auth/storage/disk-store.ts).
--
-- Which file models which part:
--   Base          shared names: lists, texts, dictionaries, errors as values (shared/errors.ts)
--   Store.Records auth/storage/store-records.ts, store-inputs.ts, expiration.ts
--   Store.Codes, Store.Tokens, Store.States, Store.Sessions
--                 the methods of `DiskOAuthStore` in auth/storage/disk-store.ts, one section each:
--                 `createAuthorizationCode` is `create_authorization_code` and so on
--   Store.RateLimits
--                 auth/storage/rate-limit-algorithm.ts and rate-limit-store.ts
--   Store.Profile auth/user-profile.ts
--   Store.Rows    auth/storage/store-row-primitives.ts and store-row-time.ts, the five rows
--                 (authorization-code-row.ts and so on) and store-codec.ts
--   Store.File    auth/storage/store-file.ts over the codec
--   Store.History the interface of auth/storage/oauth-store.ts as calls, and runs of them
--   Dynamo.Items, Dynamo.Service
--                 auth/storage/dynamodb/attribute-value.ts, keys.ts and item-codec.ts; client.ts
--   Dynamo.Codes  auth/storage/dynamodb/authorization-codes.ts
--   OAuth.Pkce    auth/pkce.ts and nonce.ts
--   OAuth.Parameters, OAuth.Scopes, OAuth.Clients, OAuth.Resource
--                 auth/oauth-parameters.ts, scopes.ts, clients.ts with client-resolver.ts,
--                 oauth-resource.ts
--   OAuth.Header, OAuth.ClientAuth
--                 auth/authorization-header.ts with basic-credentials.ts, client-auth.ts
--   OAuth.Token, OAuth.TokenEndpoint
--                 auth/tokens/ (the grants and what they issue) and token.ts
--   OAuth.Authorize, OAuth.Callback
--                 auth/authorize.ts with upstream-authorization.ts, endpoints.upstream-callback.ts
--   OAuth.Bearer  auth/bearer.ts and the verifying half of tokens/access-token.ts
--   OAuth.Jwt, OAuth.ClientAssertion
--                 auth/tokens/jwt.ts (verifying) with shared/base64url.ts, client-assertion.ts
--   OAuth.ExpiringCache
--                 auth/expiring-cache.ts
--   Mcp.Json, Mcp.JsonRpc
--                 JSON values with shared/json.ts, mcp/json-rpc.ts
--   Mcp.Methods, Mcp.Protocol
--                 mcp/notifications.ts with request-params.ts, protocol.ts
--   Mcp.ClientCapabilities
--                 mcp/client-capabilities.ts
--   Mcp.ClientMeta
--                 mcp/client-meta.ts
--   Mcp.Pagination
--                 mcp/pagination.ts
--   Mcp.SessionStore
--                 mcp/session-store.ts, request-id.ts and protocol-version.ts
--   Mcp.SseConnections
--                 mcp/sse-connection-limit.ts
-- The child modules hold the theorems, named for what they prove, and Tests the concrete inputs.
--
-- How the code is modelled:
--   * An operation of the store is a function from the store's state to what it returns or throws
--     and the state that is left. `StoreFile.update` writes only what a callback returns, so a
--     callback that throws leaves the state as it was. The lock of store-lock.ts makes the updates
--     of a file follow each other; a history is a list of calls at times, in any order of times.
--   * The clock and the random tokens that an operation draws are its arguments. SHA-256 in
--     base64url is the argument `sha`, an arbitrary function: no theorem takes it to be injective,
--     and where a collision would matter, the hypothesis says which hashes differ.
--   * An optional number in a condition is false when it is 0, an optional text when it is empty,
--     as in the language (`truthy_number`, `truthy`). Theorems on "consumed" and "revoked" ask
--     for a time that is not 0 where this matters.
--   * The rate limiter's weighted count is a quotient of doubles in the source and an exact
--     comparison of products here.
--   * A text's length is counted in UTF-16 units where the source reads `length` of a text that may
--     have others than ASCII characters. Patterns are recognizers over code points.
--   * `new URL`, base64, UTF-8 and percent decoding, the signature of a token and its check with the
--     lookup of the key, the exchange of a code with the provider, the verdict on a private-key
--     assertion (auth/client-assertion.ts is modelled for itself) and the fetching of client metadata
--     are arguments, free in every theorem. The encoding of a cursor is one too, with the hypothesis
--     that it is read back, and so are JSON's parser and printer and the service of DynamoDB, with
--     their documented behaviour as hypotheses.
--   * All recursion is structural. The only fuel is that of `decimal`, the digits of a number, which
--     is the number plus one.
--
-- What is not modelled: the lock of the store's file and the queue of its updates, what an operating
-- system can refuse beyond a missing, linked, irregular or shared file, the DynamoDB tables of other
-- records than authorization codes, keys and signatures, the client registry and metadata documents,
-- HTTP headers and bodies, the tools, resources and widgets of the MCP server, the Actions endpoints,
-- configuration, diagnostics, deployment and repository tools.
pub mod Base
pub mod Dynamo
pub mod Store
pub mod OAuth
pub mod Mcp
