-- ===== src/Keyring.antt =====
-- app/services/keyring: who a request is for, and the credentials that are attached for them.
pub mod Caller
pub mod Client
