-- ===== src/Std.antt =====
-- What the source uses of Rust's standard library, on texts held as code points.
pub mod Parse
pub mod Decimal
pub mod Split
