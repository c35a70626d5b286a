-- ===== src/Config.antt =====
-- apps/api-gateway/src/config: the .env file and the settings that may be changed in it.
pub mod EnvFile
pub mod Host
pub mod Runtime
pub mod Settings
