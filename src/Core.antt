-- ===== src/Core.antt =====
-- apps/api-gateway/src/core: what the modules of the gateway share.
pub mod Exceptions
