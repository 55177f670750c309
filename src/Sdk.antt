-- ===== src/Sdk.antt =====
-- sdk/go: the client library.
pub mod Token
