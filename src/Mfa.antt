-- ===== src/Mfa.antt =====
-- internal/service/mfa: the second factors of a user.
pub mod Data
pub mod Backup
pub mod Alphabet
pub mod Once
pub mod Generated
pub mod State
pub mod Totp
pub mod Email
pub mod StepUp
pub mod Replay
pub mod StepUpLaws
