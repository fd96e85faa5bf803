-- ===== src/Tests.antt =====
-- Runs of the model, and the theorems at concrete data.
mod Ports
mod Commands
mod Rules
mod Files
mod Adapters
mod Storage
mod Lines
