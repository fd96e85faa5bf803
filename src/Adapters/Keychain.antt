-- ===== src/Adapters/Keychain.antt =====
-- internal/adapters/keychain: the client of `security`.
pub mod Parse
pub mod Client
