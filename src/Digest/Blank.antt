-- ===== src/Digest/Blank.antt =====
-- `str::trim` on hex digits.
use sorseal.Base.{
  ℕ, ◌≡◌, true, false, ◌++◌, [], all, Text, trim, trim_end, is_whitespace, is_ascii_hexdigit, arith,
}
use sorseal.Base.Trim.{trim-all, trim-all_then}

hexdigit-is_whitespace : (c : ℕ) → is_ascii_hexdigit c ≡ true → is_whitespace c ≡ false
unfolding is_ascii_hexdigit is_whitespace
hexdigit-is_whitespace c h = ground arith

pub trim-hexdigits_then :
    (s end : Text)
    → trim end ≡ []
    → trim_end end ≡ []
    → all is_ascii_hexdigit s ≡ true
    → trim (s ++ end) ≡ s
trim-hexdigits_then = trim-all_then is_ascii_hexdigit hexdigit-is_whitespace

pub trim-hexdigits : (s : Text) → all is_ascii_hexdigit s ≡ true → trim s ≡ s
trim-hexdigits = trim-all is_ascii_hexdigit hexdigit-is_whitespace
