-- ===== src/Float64.antt =====
-- Python's `float`, as IEEE-754 binary64 bit patterns below 2^64 with round-to-nearest-even.
-- The language gives these operations; the sources use them and `struct.pack("<d", ...)`.
mod Round
pub mod Order
unfoldable pub use Round.{add, sub, mul, div, neg, of_int}
unfoldable pub use Order.*
