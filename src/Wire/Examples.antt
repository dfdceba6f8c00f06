-- ===== src/Wire/Examples.antt =====
-- Runs of the wire format.
use stationapiv.Prelude.{◌≡◌, refl, [], ◌∷◌, none}
use stationapiv.Wire.{read_uint, write_uint}

little_endian : write_uint 4 0x01020304 ≡ 4 ∷ 3 ∷ 2 ∷ 1 ∷ []
unfolding write_uint
little_endian = refl

cut_short : read_uint 2 (1 ∷ []) ≡ none
unfolding read_uint
cut_short = refl
