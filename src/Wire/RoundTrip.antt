-- ===== src/Wire/RoundTrip.antt =====
-- What is written is read back, whatever follows it.
use stationapiv.Prelude.{
  ℕ, zero, suc, ◌/◌, ◌^◌, ◌<◌, ◌≡◌, refl, ap, ◌∙◌, ◌++◌, append_assoc, Bool, true, false, List, [],
  ◌∷◌, some, Text, length, All, arith,
}
use native.Mathlib.Nat.{mod-eq_of_lt, pow-suc}
use stationapiv.Wire.{
  Reader, read_uint, write_uint, read_bool, write_bool, read_units, write_units, read_string,
  write_string, read_u16string, write_u16string, ◌>>=◌,
}

-- One step of a reader of several fields.
pub bind-some {ℓ κ} :
    {A : Type ℓ} {B : Type κ} (r : Reader A) (f : A → Reader B) {bs : List ℕ} {a : A}
    {rest : List ℕ}
    → r bs ≡ some (a, rest)
    → (r >>= f) bs ≡ f a rest
unfolding ◌>>=◌
bind-some r f e = rw (e, ◌>>=◌)

-- An integer that fits its width in bytes is read back, and the bytes that follow it are left.
pub read_uint-write_uint :
    (n v : ℕ) (rest : List ℕ) → v < 256 ^ n → read_uint n (write_uint n v ++ rest) ≡ some (v, rest)
unfolding read_uint write_uint
read_uint-write_uint zero v rest h = ap (λ t. some (t, rest)) (omega arith)
read_uint-write_uint (suc n) v rest h =
    rw (read_uint-write_uint n (v / 256) rest (omega (arith, pow-suc 256 n)))
      (ap (λ t. some (t, rest)) (omega arith))

pub read_bool-write_bool :
    (b : Bool) (rest : List ℕ) → read_bool (write_bool b ++ rest) ≡ some (b, rest)
unfolding read_bool write_bool
read_bool-write_bool true rest = bind-some _ _ (read_uint-write_uint 1 1 rest (omega arith))
read_bool-write_bool false rest = bind-some _ _ (read_uint-write_uint 1 0 rest (omega arith))

read_units-write_units :
    (width : ℕ) (us : List ℕ) (rest : List ℕ)
    → All (λ u. u < 256 ^ width) us
    → read_units width (length us) (write_units width (length us) us ++ rest) ≡ some (us, rest)
unfolding read_units write_units
read_units-write_units width [] rest h = refl
read_units-write_units width (u ∷ us) rest h = rw append_assoc (
    bind-some _ _ (read_uint-write_uint width u (write_units width (length us) us ++ rest) h.0)
    ∙ bind-some _ _ (read_units-write_units width us rest h.1))

-- A byte string of less than 2 ^ 16 bytes is read back.
read_string-write_string :
    (s : Text) (rest : List ℕ)
    → length s < 2 ^ 16
    → All (λ u. u < 256) s
    → read_string (write_string s ++ rest) ≡ some (s, rest)
unfolding read_string write_string
read_string-write_string s rest h k =
    rw (mod-eq_of_lt h, append_assoc)
      (bind-some _ _
          (read_uint-write_uint 2 (length s) (write_units 1 (length s) s ++ rest) (omega arith))
        ∙ read_units-write_units 1 s rest k)

-- A wide string of less than 2 ^ 32 units of 16 bits is read back.
pub read_u16string-write_u16string :
    (s : Text) (rest : List ℕ)
    → length s < 2 ^ 32
    → All (λ u. u < 2 ^ 16) s
    → read_u16string (write_u16string s ++ rest) ≡ some (s, rest)
unfolding read_u16string write_u16string
read_u16string-write_u16string s rest h k =
    rw (mod-eq_of_lt h, append_assoc)
      (bind-some _ _
          (read_uint-write_uint 4 (length s) (write_units 2 (length s) s ++ rest) (omega arith))
        ∙ read_units-write_units 2 s rest k)
