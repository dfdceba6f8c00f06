-- ===== src/Wire.antt =====
-- src/stationapi/Serialization.hpp: the wire format, on a little-endian host.
pub mod RoundTrip
mod Examples
use stationapiv.Prelude.{
  ℕ, zero, suc, ◌+◌, ◌*◌, ◌/◌, ◌%◌, ◌^◌, ◌++◌, Bool, true, false, not, List, [], ◌∷◌, Option, none,
  some, Text, length, ◌==◌, if◌then◌else◌,
}

-- A `read` of an input stream of bytes: the value and the bytes that are left. `none` is a stream
-- that ran short, where the source goes on with an indeterminate value.
abbrev pub Reader {ℓ} : Type ℓ → Type ℓ
Reader A = List ℕ → Option (A × List ℕ)

infixl 10 ◌>>=◌
unfoldable pub ◌>>=◌ {ℓ κ} : {A : Type ℓ} {B : Type κ} → Reader A → (A → Reader B) → Reader B
◌>>=◌ r f bs = elim (r bs) [ none ↦ none | some (a, rest) ↦ f a rest ]

abbrev pub pure {ℓ} : {A : Type ℓ} → A → Reader A
pure a bs = some (a, bs)

-- `istream.read(reinterpret_cast<char*>(&value), n)` of an integer of `n` bytes.
unfoldable pub read_uint : ℕ → Reader ℕ
read_uint zero bs = some (0, bs)
read_uint (suc n) [] = none
read_uint (suc n) (b ∷ bs) = elim (read_uint n bs) [
  | none ↦ none
  | some (v, rest) ↦ some (b + 256 * v, rest)
]

-- `ostream.write(reinterpret_cast<const char*>(&value), n)`
unfoldable pub write_uint : ℕ → ℕ → List ℕ
write_uint zero v = []
write_uint (suc n) v = v % 256 ∷ write_uint n (v / 256)

abbrev pub read_u16 : Reader ℕ
read_u16 = read_uint 2

abbrev pub read_u32 : Reader ℕ
read_u32 = read_uint 4

abbrev pub write_u16 : ℕ → List ℕ
write_u16 = write_uint 2

abbrev pub write_u32 : ℕ → List ℕ
write_u32 = write_uint 4

-- booleans
unfoldable pub read_bool : Reader Bool
read_bool = do v ← read_uint 1; pure (not (v == 0))

unfoldable pub write_bool : Bool → List ℕ
write_bool value = write_uint 1 (if value then 1 else 0)

-- `n` integers of `width` bytes each, one after the other
unfoldable pub read_units : ℕ → ℕ → Reader (List ℕ)
read_units width zero = pure []
read_units width (suc n) = do u ← read_uint width; us ← read_units width n; pure (u ∷ us)

-- the first `n` of the units
unfoldable pub write_units : ℕ → ℕ → List ℕ → List ℕ
write_units width zero us = []
write_units width (suc n) [] = []
write_units width (suc n) (u ∷ us) = write_uint width u ++ write_units width n us

-- `std::string`: a 16-bit length, to which a longer string is cut, then the bytes.
unfoldable pub read_string : Reader Text
read_string = do n ← read_u16; read_units 1 n

unfoldable pub write_string : Text → List ℕ
write_string value = let n = length value % 2 ^ 16 in write_u16 n ++ write_units 1 n value

-- `std::u16string`: a 32-bit length, then the 16-bit units.
unfoldable pub read_u16string : Reader Text
read_u16string = do n ← read_u32; read_units 2 n

unfoldable pub write_u16string : Text → List ℕ
write_u16string value = let n = length value % 2 ^ 32 in write_u32 n ++ write_units 2 n value
