-- ===== src/Accounts.antt =====
-- Accounts and sessions (src/modules/sessions, security and auth): refresh tokens and sessions in
-- Redis, two-factor codes, and the login that composes them. Each request is a program of atomic
-- commands, so requests may interleave between any two of them.
pub mod World
pub mod Program
pub mod Tokens
pub mod Security
pub mod TwoFactor
pub mod Login
pub mod Pool
pub mod Rules
pub mod Quiet
pub mod Reviews
pub mod Issued
pub mod Runs
pub mod Budget
pub mod OneUse
pub mod TokenOnce
pub mod FirstAdmin
pub mod Alone
pub mod Revoked
pub mod Ended
pub mod CodeOnce
pub mod Granted
