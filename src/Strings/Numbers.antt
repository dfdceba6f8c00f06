-- ===== src/Strings/Numbers.antt =====
-- The decimal numbers that `std::stoi` and `std::stoul` read.
use stationapiv.Prelude.{
  ℕ, ◌+◌, ◌-◌, ◌*◌, ◌%◌, ◌^◌, Bool, true, false, ◌&&◌, ◌||◌, [], ◌∷◌, Option, none, some, Text, leb,
  ltb, ◌==◌, if◌then◌else◌,
}

abbrev pub is_digit : ℕ → Bool
is_digit c = leb 48 c && leb c 57

-- Digits up to the first other character; `none` is an exception, for no digit.
unfoldable pub digits : ℕ → Bool → Text → Option ℕ
digits acc seen [] = if seen then some acc else none
digits acc seen (c ∷ cs) =
    let rest = digits (acc * 10 + (c - 48)) true cs in
    if is_digit c then rest else if seen then some acc else none

abbrev pub is_space : ℕ → Bool
is_space c = c == 32 || (leb 9 c && leb c 13)

-- An `int`, by its value as a `uint32_t`; `none` is `std::out_of_range`.
abbrev pub in_32_bits : Bool → Option ℕ → Option ℕ
in_32_bits negative none = none
in_32_bits true (some v) = if leb v (2 ^ 31) then some ((2 ^ 32 - v) % 2 ^ 32) else none
in_32_bits false (some v) = if ltb v (2 ^ 31) then some v else none

-- `std::stoi` in base ten; `none` is an exception.
unfoldable pub stoi : Text → Option ℕ
unfolding digits
stoi [] = none
stoi (c ∷ cs) =
    let rest = stoi cs in
    if is_space c
    then rest
    else if c == 43
    then in_32_bits false (digits 0 false cs)
    else if c == 45
    then in_32_bits true (digits 0 false cs)
    else in_32_bits false (digits 0 false (c ∷ cs))
