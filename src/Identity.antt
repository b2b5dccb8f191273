-- ===== src/Identity.antt =====
-- The identity part: sign-in, tokens and their revocation.
pub mod Model
pub mod Security
pub mod Sessions
pub mod Call
pub mod Access
pub mod Login
pub mod Oauth
pub mod Keys
pub mod Users
pub mod Totp
pub mod Enrolment
pub mod Blacklist
pub mod Tests
