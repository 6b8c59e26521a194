-- ===== src/Commands.antt =====
-- The commands of the plugin that drive the virtual machine (cmd/start, cmd/stop, cmd/provision,
-- cmd/deploy-service, cmd/telemetry).
pub mod Version
pub mod Plugin
pub mod Download
pub mod BoshEnv
pub mod Protocol
pub mod Stop
pub mod Provision
pub mod Start
pub mod Telemetry
pub mod DeployService
mod Examples
