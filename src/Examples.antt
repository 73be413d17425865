-- ===== src/Examples.antt =====
-- The theorems at concrete inputs.
mod Account
mod Branch
mod Audit
mod Cache
mod Window
mod Abac
mod Pdp
mod Keys
mod Map
mod Memory
mod Roles
mod Session
mod Oauth2Data
mod Oauth2
mod Mfa
mod MfaState
mod Middleware
mod Password
mod Workflow
