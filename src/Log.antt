-- ===== src/Log.antt =====
-- tyndall/log: the log level of a category, from the environment variable LOG_LEVEL.
pub mod Level
pub mod Glob
pub mod Filter
pub mod Output
pub mod Program
mod Examples
