-- ===== src/App.antt =====
-- internal/app: the use cases and the ports that they consume.
pub mod Host
pub mod Body
pub mod Told
pub mod Trace
pub mod Held
pub mod Kinds
pub mod Gate
pub mod Secrets
pub mod Steps
pub mod Networks
pub mod Lifecycle
pub mod Doctor
pub mod Init
pub mod Readers
