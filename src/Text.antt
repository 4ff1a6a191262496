-- ===== src/Text.antt =====
-- Python's `str` as the list of its code points, and the methods of `str` that the program calls.
-- The classes of characters are Python's for the code points below 256; above, no character is a
-- space, a digit or a capital letter.
mod Chars
mod Strip
mod Decimal
mod Parts
pub mod Lines
pub mod Dict
pub mod Sets
pub use Chars.{text_eq_iff, text_eq_refl}
pub use Strip.{HasNoSpace, strip-HasNoSpace, All-strip, strip_idem}
pub use Decimal.{int-str, All-str, str-cons}
pub use Parts.{Lacks, All-replace, split-join}
unfoldable pub use Chars.{is_digit, is_decimal, is_space, to_lower, lower, Text, codes, text_eq}
unfoldable pub use Strip.{lstrip, rstrip, strip}
unfoldable pub use Decimal.{int, str}
unfoldable pub use Parts.{starts_with, contains, replace, replace_first, split, join}
