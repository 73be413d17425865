-- ===== src/Oauth2.antt =====
-- OAuth2: internal/service/oauth2, the tables of internal/store/postgres/oauth2.go, and the handlers of
-- internal/api/rest/oauth2.go.
pub mod Data
pub mod Client
pub mod Store
pub mod Codes
pub mod Token
pub mod Http
pub mod Authorize
pub mod TokenEndpoint
pub mod Register
pub mod Redeem
pub mod Once
pub mod Exchange
pub mod Revoked
pub mod Redirects
pub mod Registered
pub mod Flow
pub mod Machine
pub mod Registration
