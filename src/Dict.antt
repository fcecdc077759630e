-- ===== src/Dict.antt =====
-- Python's `dict`: an association list in insertion order. The theorems state distinct keys where
-- they need them.
mod Core
mod Laws
mod Update
unfoldable pub use Core.{
  get, get_or, or_default, contains, set, remove, update, map_values, tabulate, filter, elem,
}
pub use Core.*
pub use Update.*
pub use Laws.*
pub use opendps.Num.{length}
