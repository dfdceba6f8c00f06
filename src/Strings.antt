-- ===== src/Strings.antt =====
-- src/stationapi/StringUtils.cpp and the `std::string`/`std::u16string` conversions of the
-- services.
pub mod Narrowing
pub mod Numbers
mod Examples
use stationapiv.Prelude.{
  ℕ, zero, suc, ◌+◌, ◌%◌, Bool, true, false, ◌&&◌, List, [], ◌∷◌, map, Text, leb, ◌==◌,
  if◌then◌else◌,
}

-- `FromWideString`: each 16-bit unit converts to a `char`, its low byte.
unfoldable pub from_wide_string : Text → Text
from_wide_string = map (λ u. u % 256)

-- One `char` to a `char16_t`. Where `char` is signed, a byte from 128 on is sign-extended.
unfoldable pub widen : Bool → ℕ → ℕ
widen signed b = if signed && leb 128 b then b + 0xff00 else b

-- `ToWideString`
unfoldable pub to_wide_string : Bool → Text → Text
to_wide_string signed = map (widen signed)

-- What a callee reads of `s.c_str()` when it is told no length: the bytes before the first NUL.
unfoldable pub c_str : Text → Text
c_str [] = []
c_str (b ∷ bs) = let rest = c_str bs in if b == 0 then [] else b ∷ rest
