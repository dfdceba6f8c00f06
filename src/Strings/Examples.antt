-- ===== src/Strings/Examples.antt =====
-- Runs of the conversions of strings.
use stationapiv.Prelude.{◌≡◌, refl, true, [], ◌∷◌, codes, arith}
use stationapiv.Strings.{from_wide_string, widen, to_wide_string}
use stationapiv.Strings.Narrowing.{to_wide_string-from_wide_string}

-- A name with an `é`, U+00E9, comes back as another where `char` is signed.
accent_lost : to_wide_string true (from_wide_string (0xe9 ∷ [])) ≡ 0xffe9 ∷ []
unfolding to_wide_string from_wide_string widen
accent_lost = refl

to_wide_string-from_wide_string_example :
    to_wide_string true (from_wide_string (codes "ann")) ≡ codes "ann"
to_wide_string-from_wide_string_example =
    to_wide_string-from_wide_string true (codes "ann") (ground arith)
