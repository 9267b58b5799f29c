-- ===== src/Scalar.antt =====
-- The scalar functions of SQL.
pub mod Arith
pub mod Strings
mod Tests
