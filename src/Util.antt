-- ===== src/Util.antt =====
-- internal/util: processes and the log.
pub mod Process
pub mod Logging
