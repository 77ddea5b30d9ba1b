-- ===== src/Ipc.antt =====
-- tyndall/ipc: shared memory names, the sequence lock, the shared memory buffer.
pub mod Id
pub mod SeqLock
pub mod Shmem
pub mod Rtid
pub mod Objects
pub mod Bus
pub mod Examples
