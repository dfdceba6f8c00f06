-- ===== src/Registrar/Parse.antt =====
-- `ParseGatewayClusterEndpoint` of src/stationchat/main.cpp: an entry of the option
-- gateway_cluster, `address:port` or `address:port:weight`, with brackets about an IPv6 address.
pub mod Bounds
pub mod RoundTrip
mod Examples
unfoldable pub use stationapiv.Strings.Numbers.{is_digit, digits, is_space}
use stationapiv.Prelude.{
  ℕ, ◌+◌, ◌*◌, ◌-◌, ◌%◌, ◌^◌, Bool, true, false, not, ◌&&◌, ◌||◌, List, [], ◌∷◌, Option, none, some,
  Text, ltb, leb, min, ◌==◌, if◌then◌else◌,
}
use stationapiv.Registrar.{Endpoint}

-- The texts of the `std::runtime_error`s, by what they say.
pub data Refusal : Type 0 where
  empty_entry missing_bracket missing_port_separator missing_port empty_address empty_port
        port_not_number port_out_of_range :
      Refusal
  empty_weight weight_not_number zero_weight : Refusal

pub data Parsed (A : Type 0) : Type 0 where
  parsed : A → Parsed A
  refused : Refusal → Parsed A

module _ {A B : Type 0} where
  infixl 10 ◌>>=◌
  abbrev pub ◌>>=◌ : Parsed A → (A → Parsed B) → Parsed B
  parsed a >>= f = f a
  refused r >>= f = refused r

abbrev pub pure : {A : Type 0} → A → Parsed A
pure a = parsed a

abbrev pub colon : ℕ
colon = 58

-- The characters before and after the first `c`, for `find` with `substr`; `none` is `npos`.
unfoldable pub split_at : ℕ → Text → Option (Text × Text)
split_at c [] = none
split_at c (x ∷ xs) =
    let rest = split_at c xs in
    if x == c then some ([], xs) else (elim rest [ none ↦ none | some r ↦ some (x ∷ r.0, r.1) ])

-- `std::stoul` in base ten: spaces, a sign, digits up to the first other character; `none` is an
-- exception, for no digit or a value that 64 bits do not hold.
abbrev pub in_64_bits : Bool → Option ℕ → Option ℕ
in_64_bits negative none = none
in_64_bits negative (some v) =
    if ltb v (2 ^ 64) then some (if negative then (2 ^ 64 - v) % 2 ^ 64 else v) else none

unfoldable pub stoul : Text → Option ℕ
stoul [] = none
stoul (c ∷ cs) =
    let rest = stoul cs in
    if is_space c
    then rest
    else if c == 43
    then in_64_bits false (digits 0 false cs)
    else if c == 45
    then in_64_bits true (digits 0 false cs)
    else in_64_bits false (digits 0 false (c ∷ cs))

-- `static_cast<uint32_t>(std::stoul(token))` in its `try`
unfoldable pub number : Refusal → Text → Parsed ℕ
number r token = elim (stoul token) [ none ↦ refused r | some v ↦ parsed (v % 2 ^ 32) ]

abbrev pub require : Bool → Refusal → Parsed (Unit {0})
require true r = parsed tt
require false r = refused r

abbrev pub is_blank : Text → Bool
is_blank [] = true
is_blank (c ∷ cs) = false

-- `substr` behind the port separator
abbrev pub behind_colon : Text → Parsed Text
behind_colon [] = refused missing_port_separator
behind_colon (c ∷ cs) = if c == colon then parsed cs else refused missing_port_separator

-- The address and what follows the port separator
unfoldable pub split_address : Text → Parsed (Text × Text)
split_address [] = refused empty_entry
split_address (c ∷ cs) =
    if c == 91
    then (elim (split_at 93 cs) [
      | none ↦ refused missing_bracket
      | some r ↦ (do remainder ← behind_colon r.1; pure (r.0, remainder))
    ])
    else (elim (split_at colon (c ∷ cs)) [ none ↦ refused missing_port | some r ↦ parsed r ])

unfoldable pub parse_port : Text → Parsed ℕ
parse_port token = do
  t ← require (not (is_blank token)) empty_port
  value ← number port_not_number token
  t ← require (not (value == 0) && leb value 65535) port_out_of_range
  pure value

unfoldable pub parse_weight : Text → Parsed ℕ
parse_weight token = do
  t ← require (not (is_blank token)) empty_weight
  value ← number weight_not_number token
  t ← require (not (value == 0)) zero_weight
  pure (min value 65535)

-- The port token and, where there is a second separator, the weight token
unfoldable pub parse_numbers : Text → Text → Parsed Endpoint
parse_numbers address remainder = elim (split_at colon remainder) [
  | none ↦ (do
    port ← parse_port remainder
    pure (record { address = address; port = port; weight = 1 }))
  | some r ↦ (do
    port ← parse_port r.0
    weight ← parse_weight r.1
    pure (record { address = address; port = port; weight = weight }))
]

-- The whole function; `trim` is `boost::algorithm::trim_copy`.
unfoldable pub parse_gateway_cluster_endpoint : (Text → Text) → Text → Parsed Endpoint
parse_gateway_cluster_endpoint trim definition = do
  split ← split_address (trim definition)
  t ← require (not (is_blank split.0)) empty_address
  parse_numbers split.0 split.1
