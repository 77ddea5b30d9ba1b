-- ===== src/Meta.antt =====
-- tyndall/meta: the FNV-1a hash, compile time strings, the preprocessor tables.
pub mod Hash
pub mod Strval
pub mod MacroTables
pub mod Macro
pub mod Typeinfo
mod Examples
