-- ===== src/Registrar/Parse/RoundTrip.antt =====
-- An entry of gateway_cluster that is printed and then parsed.
use stationapiv.Prelude.{
  ℕ, zero, suc, ◌+◌, ◌*◌, ◌-◌, ◌/◌, ◌%◌, ◌^◌, ◌≤◌, ◌<◌, ◌≡◌, refl, ap, ◌∙◌, ◌++◌, true, false, [],
  ◌∷◌, none, some, Text, All, All-append, ltb, Bool-cases, inl, inr, arith,
}
use stationapiv.Registrar.{Endpoint, decimal}
use stationapiv.Registrar.Keys.{value, value-decimal}
use stationapiv.Registrar.Parse.{
  parsed, colon, split_at, digits, stoul, number, is_blank, split_address, parse_port, parse_weight,
  parse_numbers, parse_gateway_cluster_endpoint,
}
use stationapiv.Registrar.Parse.Bounds.{IsUsable}

-- The text without the character `c` up to the first `c`
split_at-append :
    (c : ℕ) (a b : Text) → All (λ x. x ≡ c → ⊥) a → split_at c (a ++ c ∷ b) ≡ some (a, b)
unfolding split_at
split_at-append c [] b h = ground arith
split_at-append c (x ∷ a) b h = ground (arith, split_at-append c a b h.1, h.0)

split_at-none : (c : ℕ) (a : Text) → All (λ x. x ≡ c → ⊥) a → split_at c a ≡ none
unfolding split_at
split_at-none c [] h = refl
split_at-none c (x ∷ a) h = ground (arith, split_at-none c a h.1, h.0)

abbrev IsDigit : ℕ → Type 0
IsDigit c = (48 ≤ c) × (c ≤ 57)

decimal-IsDigit : (n v : ℕ) → All IsDigit (decimal n v)
unfolding decimal
decimal-IsDigit zero v = tt
decimal-IsDigit (suc n) v = elim (Bool-cases (ltb v 10)) [
  | inl e ↦ rw e (omega arith, tt)
  | inr e ↦ rw e (
      All-append IsDigit (decimal n (v / 10)) ((v % 10 + 48) ∷ []) (decimal-IsDigit n (v / 10))
        (omega arith, tt))
]

digits-value : (acc : ℕ) (ds : Text) → All IsDigit ds → digits acc true ds ≡ some (value acc ds)
unfolding digits value
digits-value acc [] h = refl
digits-value acc (c ∷ ds) h = ground (arith, digits-value (acc * 10 + (c - 48)) ds h.1, h.0)

stoul-value :
    (ds : Text)
    → is_blank ds ≡ false
    → All IsDigit ds
    → value 0 ds < 2 ^ 64
    → stoul ds ≡ some (value 0 ds)
unfolding stoul digits value
stoul-value [] b h k = cc
stoul-value (c ∷ ds) b h k = ground (arith, digits-value (0 * 10 + (c - 48)) ds h.1, h.0)

is_blank-append : (xs : Text) (x : ℕ) (ys : Text) → is_blank (xs ++ x ∷ ys) ≡ false
is_blank-append [] x ys = refl
is_blank-append (u ∷ xs) x ys = refl

is_blank-decimal : (n v : ℕ) → is_blank (decimal (suc n) v) ≡ false
unfolding decimal
is_blank-decimal n v = is_blank-append _ (v % 10 + 48) []

no_colon : (ds : Text) → All IsDigit ds → All (λ x. x ≡ colon → ⊥) ds
no_colon [] h = tt
no_colon (c ∷ ds) h = ((λ e. omega (arith, h.0, e)), no_colon ds h.1)

stoul-decimal : (v : ℕ) → v < 2 ^ 16 → stoul (decimal 5 v) ≡ some v
stoul-decimal v h =
    let same : value 0 (decimal 5 v) ≡ v = value-decimal 5 v (omega arith) in
    stoul-value (decimal 5 v) (is_blank-decimal 4 v) (decimal-IsDigit 5 v) (omega (arith, same))
    ∙ ap some same

parse_port-decimal : (v : ℕ) → 1 ≤ v → v ≤ 65535 → parse_port (decimal 5 v) ≡ parsed v
unfolding parse_port number
parse_port-decimal v h k = ground (arith, is_blank-decimal 4 v, stoul-decimal v (omega arith))

parse_weight-decimal : (v : ℕ) → 1 ≤ v → v ≤ 65535 → parse_weight (decimal 5 v) ≡ parsed v
unfolding parse_weight number
parse_weight-decimal v h k = ground (arith, is_blank-decimal 4 v, stoul-decimal v (omega arith))

-- The port and the weight of an endpoint, printed
abbrev pub printed_numbers : Endpoint → Text
printed_numbers e = decimal 5 e.port ++ colon ∷ decimal 5 e.weight

parse_numbers-printed :
    (e : Endpoint) → IsUsable e → parse_numbers e.address (printed_numbers e) ≡ parsed e
unfolding parse_numbers
parse_numbers-printed e u =
    rw
      (
        split_at-append colon (decimal 5 e.port) (decimal 5 e.weight)
            (no_colon (decimal 5 e.port) (decimal-IsDigit 5 e.port)),
        parse_numbers,
      )
      (rw (parse_port-decimal e.port u.1.0 u.1.1, parse_weight-decimal e.weight u.2.0 u.2.1) refl)

-- `address:port:weight`, and `[address]:port:weight`
abbrev pub printed : Endpoint → Text
printed e = e.address ++ colon ∷ printed_numbers e

abbrev pub bracketed : Endpoint → Text
bracketed e = 91 ∷ e.address ++ 93 ∷ colon ∷ printed_numbers e

split_address-printed :
    (a rest : Text)
    → is_blank a ≡ false
    → All (λ x. (x ≡ colon → ⊥) × (x ≡ 91 → ⊥)) a
    → split_address (a ++ colon ∷ rest) ≡ parsed (a, rest)
unfolding split_address
split_address-printed [] rest b h = cc
split_address-printed (c ∷ a) rest b h =
    ground (arith, split_at-append colon (c ∷ a) rest (colons (c ∷ a) h), h.0.1)
  where
    colons : (a : Text) → All (λ x. (x ≡ colon → ⊥) × (x ≡ 91 → ⊥)) a → All (λ x. x ≡ colon → ⊥) a
    colons [] h = tt
    colons (c ∷ a) h = (h.0.0, colons a h.1)

split_address-bracketed :
    (a rest : Text)
    → All (λ x. x ≡ 93 → ⊥) a
    → split_address (91 ∷ a ++ 93 ∷ colon ∷ rest) ≡ parsed (a, rest)
unfolding split_address
split_address-bracketed a rest h = rw (split_at-append 93 a (colon ∷ rest) h) refl

parse_from :
    (trim : Text → Text) (definition : Text) (e : Endpoint)
    → IsUsable e
    → split_address (trim definition) ≡ parsed (e.address, printed_numbers e)
    → parse_gateway_cluster_endpoint trim definition ≡ parsed e
unfolding parse_gateway_cluster_endpoint
parse_from trim definition e u h = rw (h, u.0) (parse_numbers-printed e u)

-- An endpoint with an address free of `:` and `[`, with a port and a weight from 1 to 65535,
-- printed as `address:port:weight`, is parsed back, if trimming leaves the text as it is.
pub parse-printed :
    (trim : Text → Text) (e : Endpoint)
    → IsUsable e
    → All (λ x. (x ≡ colon → ⊥) × (x ≡ 91 → ⊥)) e.address
    → trim (printed e) ≡ printed e
    → parse_gateway_cluster_endpoint trim (printed e) ≡ parsed e
parse-printed trim e u h t =
    parse_from trim (printed e) e u
      (ap split_address t ∙ split_address-printed e.address (printed_numbers e) u.0 h)

-- An endpoint with an address free of `]`, colons or not, with a port and a weight from 1 to 65535,
-- printed as `[address]:port:weight`, is parsed back, if trimming leaves the text as it is.
parse-bracketed :
    (trim : Text → Text) (e : Endpoint)
    → IsUsable e
    → All (λ x. x ≡ 93 → ⊥) e.address
    → trim (bracketed e) ≡ bracketed e
    → parse_gateway_cluster_endpoint trim (bracketed e) ≡ parsed e
parse-bracketed trim e u h t =
    parse_from trim (bracketed e) e u
      (ap split_address t ∙ split_address-bracketed e.address (printed_numbers e) h)
