-- ===== src/Num.antt =====
-- Exact numbers for the watts, fractions and seconds of the program: the rational numbers, with
-- the operations and comparisons that the source applies to its floats.
mod Frac
mod Rat
mod Ring
mod Order
mod Linear
mod Field
mod MinMax
mod Sum
mod Share
unfoldable pub use Rat.{ℚ, ⟦◌⟧, ◌+◌, ◌-◌, ◌*◌, ◌/◌, neg, inv, int, leb, ltb, min, max}
pub use Rat.{◌≤◌, ◌<◌, ℚ_set}
pub use Ring.*
pub use Order.{leb_refl, leb_total, leb-int}
pub use Linear.*
pub use Field.*
pub use MinMax.*
unfoldable pub use Sum.{sum, sum_map}
pub use Sum.*
pub use Share.*
