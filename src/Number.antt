-- ===== src/Number.antt =====
-- The numbers of the source. A JavaScript `number` that holds a price, a size, an amount or a time is
-- a double: its type is a parameter, with the operations that the code uses. No law of arithmetic is
-- assumed of them here; a theorem that needs one of the comparisons takes `IsOrdered`.
mod Fixed
pub use Fixed.{ℤ, Cents, pos, negsuc, cents_number, Cents-IsOrdered}
unfoldable pub use Fixed.{show_ℤ}
mod Defs
pub use Defs.*
