-- ===== src/Registrar/Keys.antt =====
-- Two endpoints share a key only if they are the same.
use stationapiv.Prelude.{
  ℕ, zero, suc, ◌+◌, ◌*◌, ◌-◌, ◌/◌, ◌%◌, ◌^◌, ◌<◌, ◌≤◌, ◌≡◌, refl, sym, ap, ◌∙◌, ◌++◌, [], ◌∷◌,
  Text, All, All-append, ltb, Bool-cases, inl, inr, arith,
}
use native.Mathlib.Nat.{pow-suc}
use mathlib.Core.Path.{subst}
use stationapiv.Registrar.{decimal, make_endpoint_key}

-- The number that digits stand for, after `acc`.
unfoldable pub value : ℕ → Text → ℕ
value acc [] = acc
value acc (c ∷ cs) = value (acc * 10 + (c - 48)) cs

value-append : (acc : ℕ) (xs ys : Text) → value acc (xs ++ ys) ≡ value (value acc xs) ys
unfolding value
value-append acc [] ys = refl
value-append acc (x ∷ xs) ys = value-append (acc * 10 + (x - 48)) xs ys

pub value-decimal : (n v : ℕ) → v < 10 ^ n → value 0 (decimal n v) ≡ v
unfolding decimal value
value-decimal zero v h = omega arith
value-decimal (suc n) v h = elim (Bool-cases (ltb v 10)) [
  | inl e ↦ rw e (ground arith)
  | inr e ↦
      rw
        (
          e,
          value-append 0 (decimal n (v / 10)) ((v % 10 + 48) ∷ []),
          value-decimal n (v / 10) (omega (arith, pow-suc 10 n)),
        )
        (omega arith)
]

decimal_above : (n v : ℕ) → All (λ c. 48 ≤ c) (decimal n v)
unfolding decimal
decimal_above zero v = tt
decimal_above (suc n) v = elim (Bool-cases (ltb v 10)) [
  | inl e ↦ rw e (omega arith)
  | inr e ↦ rw e (
      All-append (λ c. 48 ≤ c) (decimal n (v / 10)) ((v % 10 + 48) ∷ []) (decimal_above n (v / 10))
        (omega arith))
]

hash_not_digit : (xs ys : Text) → All (λ c. 48 ≤ c) (xs ++ 35 ∷ ys) → ⊥
hash_not_digit [] ys h = omega arith
hash_not_digit (x ∷ xs) ys h = hash_not_digit xs ys h.1

-- The last `#` splits a key.
split_hash :
    (a b d e : Text)
    → All (λ c. 48 ≤ c) d
    → All (λ c. 48 ≤ c) e
    → a ++ 35 ∷ d ≡ b ++ 35 ∷ e
    → (a ≡ b) × (d ≡ e)
split_hash [] [] d e hd he p = (refl, cc)
split_hash [] (y ∷ b) d e hd he p =
    let q : d ≡ b ++ 35 ∷ e = cc in absurd (hash_not_digit b e (subst (All (λ c. 48 ≤ c)) q hd))
split_hash (x ∷ a) [] d e hd he p =
    let q : e ≡ a ++ 35 ∷ d = cc in absurd (hash_not_digit a d (subst (All (λ c. 48 ≤ c)) q he))
split_hash (x ∷ a) (y ∷ b) d e hd he p =
    let q : (a ≡ b) × (d ≡ e) = split_hash a b d e hd he (cc) in (cc (q.0), q.1)

-- Different pairs of an address and a 16-bit port have different keys in the health map, also where
-- an address holds a `#`.
pub make_endpoint_key_injective :
    (a b : Text) (p q : ℕ)
    → p < 2 ^ 16
    → q < 2 ^ 16
    → make_endpoint_key a p ≡ make_endpoint_key b q
    → (a ≡ b) × (p ≡ q)
unfolding make_endpoint_key
make_endpoint_key_injective a b p q hp hq e =
    let (same_address, same_digits) =
      split_hash a b (decimal 5 p) (decimal 5 q) (decimal_above 5 p) (decimal_above 5 q) e in
    (
      same_address,
      sym (value-decimal 5 p (omega arith))
          ∙ ap (value 0) same_digits
          ∙ value-decimal 5 q (omega arith),
    )
