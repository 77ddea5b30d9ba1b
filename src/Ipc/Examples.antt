-- ===== src/Ipc/Examples.antt =====
-- tyndall/ipc at concrete inputs: the cases of tests/ipc/ipc.cpp, and the theorems applied.
mod Names
mod Lock
mod Protocol
mod Memory
mod Objects
mod Bus
mod Kernel
mod Race
pub mod System
