-- ===== src/Strings/Narrowing.antt =====
-- Which texts survive the conversion to bytes and back.
use stationapiv.Prelude.{◌<◌, ◌≡◌, refl, Bool, [], ◌∷◌, Text, All, arith}
use stationapiv.Strings.{from_wide_string, widen, to_wide_string}

-- A text of ASCII units is what it was after `FromWideString` and `ToWideString`, whatever the sign
-- of `char`.
pub to_wide_string-from_wide_string :
    (signed : Bool) (s : Text)
    → All (λ u. u < 128) s
    → to_wide_string signed (from_wide_string s) ≡ s
unfolding from_wide_string to_wide_string widen
to_wide_string-from_wide_string signed [] h = refl
to_wide_string-from_wide_string signed (u ∷ s) h =
    ground (arith, to_wide_string-from_wide_string signed s)

-- A byte string is what it was after `ToWideString` and `FromWideString`, whatever the sign of
-- `char`.
from_wide_string-to_wide_string :
    (signed : Bool) (s : Text)
    → All (λ b. b < 256) s
    → from_wide_string (to_wide_string signed s) ≡ s
unfolding from_wide_string to_wide_string widen
from_wide_string-to_wide_string signed [] h = refl
from_wide_string-to_wide_string signed (b ∷ s) h =
    ground (arith, from_wide_string-to_wide_string signed s)
