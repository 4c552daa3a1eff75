-- ===== src/Str.antt =====
-- Python's `str` and `bytes`, as far as the sources use them: a text is the list of its code
-- points (Unicode scalar values), and a byte string the list of its bytes.
pub mod Core
pub mod Strip
pub mod Split
pub mod Crlf
pub mod Utf8
pub mod Number
