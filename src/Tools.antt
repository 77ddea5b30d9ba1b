-- ===== src/Tools.antt =====
-- tools: the programs that look at shared memory and clean it up.
pub mod IpcRead
pub mod IpcCleanup
mod Examples
