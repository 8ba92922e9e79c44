-- ===== src/Go.antt =====
-- What the program uses of Go's `strings` and `unicode` packages, over code points.
pub mod Unicode
pub mod Strings
pub mod Trim
pub mod Decimal
pub mod Maps
pub mod Order
