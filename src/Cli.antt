-- ===== src/Cli.antt =====
-- internal/cli and the end of cmd/lclaw/main.go: the commands, what they print, and the exit status.
pub mod Exit
pub mod Views
pub mod Values
pub mod Commands
pub mod Secrets
pub mod Setup
