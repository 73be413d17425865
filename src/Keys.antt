-- ===== src/Keys.antt =====
-- The signing keys and the access tokens of internal/service/jwt. RSA and the JWT library are
-- parameters.
pub mod Jwt
pub mod Manager
pub mod Rotation
pub mod Tokens
pub mod Verified
