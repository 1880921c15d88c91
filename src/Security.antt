-- ===== src/Security.antt =====
-- internal/security: the validation of requests and the authentication of the HTTP API.
pub mod Validation
pub mod Auth
