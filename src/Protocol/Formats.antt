-- ===== src/Protocol/Formats.antt =====
-- The wire layout of a request as a list of fields, and what reading a field gives back.
pub mod Avatars
pub mod Contacts
pub mod Rooms
pub mod Rights
pub mod Messages
use stationapiv.Prelude.{
  ℕ, ◌<◌, ◌^◌, ◌≡◌, refl, sym, ap, ◌∙◌, ◌++◌, append_assoc, Bool, List, [], ◌∷◌, some, Text, length,
  All, arith,
}
use stationapiv.Wire.{
  Reader, read_uint, write_uint, read_bool, write_bool, read_u16string, write_u16string,
}
use stationapiv.Wire.RoundTrip.{read_uint-write_uint, read_u16string-write_u16string}

pub data Field : Type 0 where
  u16 u32 : ℕ → Field
  -- a 16-bit integer that is not 0
  nonzero : ℕ → Field
  flag : Bool → Field
  wide : Text → Field

unfoldable pub write_field : Field → List ℕ
write_field (u16 n) = write_uint 2 n
write_field (u32 n) = write_uint 4 n
write_field (nonzero n) = write_uint 2 n
write_field (flag b) = write_bool b
write_field (wide s) = write_u16string s

-- The value fits its field.
abbrev pub Fits : Field → Type 0
Fits (u16 n) = n < 2 ^ 16
Fits (u32 n) = n < 2 ^ 32
Fits (nonzero n) = (0 < n) × (n < 2 ^ 16)
Fits (flag b) = Unit
Fits (wide s) = (length s < 2 ^ 32) × All (λ u. u < 2 ^ 16) s

-- The fields one after the other, in front of `rest`.
abbrev pub encode : List Field → List ℕ → List ℕ
encode [] rest = rest
encode (f ∷ fs) rest = write_field f ++ encode fs rest

pub encode-append :
    (fs gs : List Field) (rest : List ℕ) → encode (fs ++ gs) rest ≡ encode fs (encode gs rest)
encode-append [] gs rest = refl
encode-append (f ∷ fs) gs rest = ap (λ bs. write_field f ++ bs) (encode-append fs gs rest)

pub All-front : (fs gs : List Field) → All Fits (fs ++ gs) → All Fits fs
All-front [] gs h = tt
All-front (f ∷ fs) gs h = (h.0, All-front fs gs h.1)

pub All-back : (fs gs : List Field) → All Fits (fs ++ gs) → All Fits gs
All-back [] gs h = h
All-back (f ∷ fs) gs h = All-back fs gs h.1

pub read-u16 :
    (n : ℕ) (rest : List ℕ)
    → Fits (u16 n)
    → read_uint 2 (write_field (u16 n) ++ rest) ≡ some (n, rest)
unfolding write_field
read-u16 n rest h = read_uint-write_uint 2 n rest (omega arith)

pub read-nonzero :
    (n : ℕ) (rest : List ℕ)
    → Fits (nonzero n)
    → read_uint 2 (write_field (nonzero n) ++ rest) ≡ some (n, rest)
unfolding write_field
read-nonzero n rest h = read_uint-write_uint 2 n rest (omega arith)

pub read-u32 :
    (n : ℕ) (rest : List ℕ)
    → Fits (u32 n)
    → read_uint 4 (write_field (u32 n) ++ rest) ≡ some (n, rest)
unfolding write_field
read-u32 n rest h = read_uint-write_uint 4 n rest (omega arith)

pub read-flag :
    (b : Bool) (rest : List ℕ)
    → Fits (flag b)
    → read_bool (write_field (flag b) ++ rest) ≡ some (b, rest)
unfolding write_field
read-flag b rest h = stationapiv.Wire.RoundTrip.read_bool-write_bool b rest

pub read-wide :
    (s : Text) (rest : List ℕ)
    → Fits (wide s)
    → read_u16string (write_field (wide s) ++ rest) ≡ some (s, rest)
unfolding write_field
read-wide s rest h = read_u16string-write_u16string s rest h.0 h.1
