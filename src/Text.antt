-- ===== src/Text.antt =====
-- The methods of Python's `str` that the program calls, on the native strings.
mod Core
pub mod Float
unfoldable pub use Core.{
  is_space, is_blank, lstrip, strip, split_on, split_once, splitlines, is_decimal, to_number,
  lower_equals, number_text, text_leb, ends_with,
}
pub use Core.*
