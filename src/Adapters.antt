-- ===== src/Adapters.antt =====
-- internal/adapters: the adapters behind the ports.
pub mod Libraries
pub mod Redact
pub mod Exec
pub mod Keychain
pub mod Scripts
pub mod Litellm
pub mod Podman
pub mod Toml
pub mod Files
pub mod Joined
