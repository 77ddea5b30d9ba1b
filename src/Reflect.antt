-- ===== src/Reflect.antt =====
-- tyndall/reflect: the fields of a struct, and how their values are printed.
pub mod NFields
pub mod PrintFormat
pub mod Reflection
pub mod Values
mod Examples
