-- ===== src/Registrar/Parse/Bounds.antt =====
-- What an accepted entry is sure to hold.
use stationapiv.Prelude.{
  ℕ, ◌≤◌, ◌≡◌, ◌≢◌, refl, true, false, not, Option, none, some, Text, Bool-cases, inl, inr, arith,
}
use stationapiv.Registrar.{Endpoint}
use mathlib.Core.Path.{subst}
use stationapiv.Registrar.Parse.{
  pure, ◌>>=◌, require, is_blank, empty_address, colon, Parsed, parsed, refused, split_at,
  split_address, parse_port, parse_weight, parse_numbers, parse_gateway_cluster_endpoint,
}

parsed_injective : {a b : Endpoint} → parsed a ≡ parsed b → a ≡ b
parsed_injective h = cc

parse_port_bounds : (token : Text) (v : ℕ) → parse_port token ≡ parsed v → (1 ≤ v) × (v ≤ 65535)
unfolding parse_port
parse_port_bounds token v h = ground arith

parse_weight_bounds : (token : Text) (v : ℕ) → parse_weight token ≡ parsed v → (1 ≤ v) × (v ≤ 65535)
unfolding parse_weight
parse_weight_bounds token v h = ground arith

-- An endpoint with a port and a weight that are not 0, and an address.
abbrev pub IsUsable : Endpoint → Type 0
IsUsable e =
    (is_blank e.address ≡ false)
    × ((1 ≤ e.port) × (e.port ≤ 65535))
    × ((1 ≤ e.weight) × (e.weight ≤ 65535))

with_port :
    (address : Text) (p : Parsed ℕ) (e : Endpoint)
    → ((v : ℕ) → p ≡ parsed v → (1 ≤ v) × (v ≤ 65535))
    → is_blank address ≡ false
    → (p >>= (λ port. pure (record { address = address; port = port; weight = 1 }))) ≡ parsed e
    → IsUsable e
with_port address (parsed v) e b a h =
    subst IsUsable (parsed_injective h) (a, b v refl, (omega arith, omega arith))
with_port address (refused r) e b a h = cc

with_weight :
    (address : Text) (p w : Parsed ℕ) (e : Endpoint)
    → ((v : ℕ) → p ≡ parsed v → (1 ≤ v) × (v ≤ 65535))
    → ((v : ℕ) → w ≡ parsed v → (1 ≤ v) × (v ≤ 65535))
    → is_blank address ≡ false
    → (p >>= (λ port.
        w >>= (λ weight. pure (record { address = address; port = port; weight = weight }))))
      ≡ parsed e
    → IsUsable e
with_weight address (parsed v) (parsed u) e b d a h =
    subst IsUsable (parsed_injective h) (a, b v refl, d u refl)
with_weight address (parsed v) (refused r) e b d a h = cc
with_weight address (refused r) w e b d a h = cc

numbers-IsUsable :
    (address remainder : Text) (o : Option (Text × Text)) (e : Endpoint)
    → is_blank address ≡ false
    → ◌≡◌ {A = Parsed Endpoint}
        (elim o [
          | none ↦
              (parse_port remainder
                >>= (λ port. pure (record { address = address; port = port; weight = 1 })))
          | some r ↦
              (parse_port r.0 >>= (λ port.
                parse_weight r.1
                >>= (λ weight. pure (record { address = address; port = port; weight = weight }))))
        ])
        (parsed e)
    → IsUsable e
numbers-IsUsable address remainder none e a h =
    with_port address (parse_port remainder) e (parse_port_bounds remainder) a h
numbers-IsUsable address remainder (some r) e a h =
    with_weight address (parse_port r.0) (parse_weight r.1) e (parse_port_bounds r.0)
      (parse_weight_bounds r.1) a h

entry-IsUsable :
    (o : Parsed (Text × Text)) (e : Endpoint)
    → (o >>= (λ split.
        require (not (is_blank split.0)) empty_address >>= (λ t. parse_numbers split.0 split.1)))
      ≡ parsed e
    → IsUsable e
unfolding parse_numbers
entry-IsUsable (refused r) e h = cc
entry-IsUsable (parsed split) e h = elim (Bool-cases (is_blank split.0)) [
  | inl b ↦ absurd (refused_blank split b e h)
  | inr b ↦ numbers-IsUsable split.0 split.1 (split_at colon split.1) e b (accepted split b e h)
]
  where
    refused_blank :
        (split : Text × Text)
        → is_blank split.0 ≡ true
        → (e : Endpoint)
        → (require (not (is_blank split.0)) empty_address >>= (λ t. parse_numbers split.0 split.1))
          ≢ parsed e
    refused_blank split b e h = ground arith

    accepted :
        (split : Text × Text)
        → is_blank split.0 ≡ false
        → (e : Endpoint)
        → (require (not (is_blank split.0)) empty_address >>= (λ t. parse_numbers split.0 split.1))
          ≡ parsed e
        → parse_numbers split.0 split.1 ≡ parsed e
    accepted split b e h = rw b at h

-- An accepted entry of gateway_cluster has an address that is not empty, a port and a weight from 1
-- to 65535, however the entry is trimmed and whatever its numbers overflow.
pub parse_gateway_cluster_endpoint-IsUsable :
    (trim : Text → Text) (definition : Text) (e : Endpoint)
    → parse_gateway_cluster_endpoint trim definition ≡ parsed e
    → IsUsable e
unfolding parse_gateway_cluster_endpoint
parse_gateway_cluster_endpoint-IsUsable trim definition e h =
    entry-IsUsable (split_address (trim definition)) e h
