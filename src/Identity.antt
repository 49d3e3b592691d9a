-- ===== src/Identity.antt =====
-- Identity (mint-sniper/src/identity): sessions and their three factors, the TOTP codes, and the guard of
-- the API (mint-sniper/src/auth.rs). A table is the list of its rows. A query of the database may fail;
-- `Faults` says which query of an operation does.
pub mod Promotion
pub mod Credentials
pub mod Session
pub mod Lifetime
pub mod Revocation
pub mod Users
pub mod Totp
pub mod Replay
pub mod Logins
pub mod Webauthn
pub mod Keys
pub mod Origin
pub mod Oidc
pub mod Guard
pub mod Admission
