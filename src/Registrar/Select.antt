-- ===== src/Registrar/Select.antt =====
-- `SelectGatewayEndpoint` of src/stationchat/RegistrarNode.cpp and the handler of
-- REGISTRAR_GETCHATSERVER.
use stationapiv.Strings.{from_wide_string, to_wide_string}
use stationapiv.Prelude.{
  ℕ, zero, suc, ◌+◌, ◌%◌, ◌^◌, Bool, false, not, ◌&&◌, ◌||◌, [], ◌∷◌, Option, none, some, Text,
  length, get_or, ltb, ◌==◌, if◌then◌else◌,
}
use stationapiv.Registrar.{Endpoint, Config, matches}
use stationapiv.Registrar.Cluster.{self_endpoint}
use stationapiv.Registrar.Health.{
  EndpointHealth, HealthMap, RegistrarNode, Clock, update, is_blacklisted_at, prune,
  find_endpoint_health, ensure_entry, is_blank, report_gateway_failure, report_gateway_success,
}

-- `IsEndpointBlacklistedLocked` with its reading of the clock, which an entry that was never
-- blacklisted does not need.
unfoldable pub is_blacklisted : Clock → EndpointHealth → RegistrarNode → Bool × RegistrarNode
is_blacklisted clock h s =
    if h.blacklist_until == 0
    then (false, s)
    else (is_blacklisted_at (clock s.reads) h, record s { reads = s.reads + 1 })

abbrev pub with_health : HealthMap → RegistrarNode → RegistrarNode
with_health m s = record s { endpoint_health = m }

-- One candidate of the round: `none` where it is blacklisted.
unfoldable pub try_candidate : Clock → Endpoint → RegistrarNode → Option Endpoint × RegistrarNode
try_candidate clock candidate s =
    let ensured = ensure_entry candidate s.endpoint_health in
    let (health, m) =
      find_endpoint_health candidate.address candidate.port s.weighted_gateway_endpoints ensured in
    elim health [
      | none ↦ (some candidate, with_health m s)
      | some h ↦
          let (black, s') = is_blacklisted clock h (with_health m s) in
          (if black then none else some candidate, s')
    ]

-- The `for` loop over `offset`, with the rounds that are left; the sum of the indices is a
-- `size_t`.
unfoldable pub scan : Clock → ℕ → ℕ → ℕ → RegistrarNode → Option Endpoint × RegistrarNode
scan clock zero offset index s = (none, s)
scan clock (suc left) offset index s =
    let view = s.weighted_gateway_endpoints in
    let candidate =
      get_or view ((index + offset) % 2 ^ 64 % length view)
        (record { address = []; port = 0; weight = 1 }) in
    let (found, s') = try_candidate clock candidate s in
    elim found [ some e ↦ (some e, s') | none ↦ scan clock left (offset + 1) index s' ]

-- `std::min_element` by `blacklistUntil`: the first of the least.
unfoldable pub least : HealthMap → Option (Text × EndpointHealth)
least [] = none
least ((k, h) ∷ m) = elim (least m) [
  | none ↦ some (k, h)
  | some (j, g) ↦ if ltb g.blacklist_until h.blacklist_until then some (j, g) else some (k, h)
]

-- What is taken where all candidates are blacklisted: the entry that comes free first, made free.
unfoldable pub release_least : ℕ → RegistrarNode → Endpoint × RegistrarNode
release_least index s =
    let view = s.weighted_gateway_endpoints in
    elim (least s.endpoint_health) [
      | none ↦
          (get_or view (index % length view) (record { address = []; port = 0; weight = 1 }), s)
      | some (k, h) ↦ (
        h.endpoint,
        with_health (update k (record h { blacklist_until = 0 }) s.endpoint_health) s,
      )
    ]

-- The round over the view, from the index that `fetch_add` returns.
unfoldable pub select_round : Clock → RegistrarNode → Endpoint × RegistrarNode
select_round clock s =
    let index = s.next_gateway_index in
    let (found, s') =
      scan clock (length s.weighted_gateway_endpoints) 0 index
        (record s { next_gateway_index = (index + 1) % 2 ^ 64 }) in
    elim found [ some e ↦ (e, s') | none ↦ release_least index s' ]

-- The preferred endpoint, where the view knows it and it is not blacklisted.
unfoldable pub try_preferred : Clock → Text → ℕ → RegistrarNode → Option Endpoint × RegistrarNode
try_preferred clock address port s =
    let (health, m) =
      find_endpoint_health address port s.weighted_gateway_endpoints s.endpoint_health in
    elim health [
      | none ↦ (none, with_health m s)
      | some h ↦
          let (black, s') = is_blacklisted clock h (with_health m s) in
          (if black then none else some h.endpoint, s')
    ]

unfoldable pub select_gateway_endpoint :
    Clock → Config → Text → ℕ → RegistrarNode → Endpoint × RegistrarNode
select_gateway_endpoint clock c preferred_address preferred_port s =
    let pruned = record s {
      endpoint_health = prune (clock s.reads) s.endpoint_health;
      reads = s.reads + 1;
    } in
    let (preferred, s') =
      (if is_blank preferred_address || preferred_port == 0
        then (none, pruned)
        else try_preferred clock preferred_address preferred_port pruned) in
    let chosen : Endpoint × RegistrarNode = elim preferred [
      | some e ↦ (e, s')
      | none ↦ select_round clock s'
    ] in
    elim s.weighted_gateway_endpoints [ [] ↦ (self_endpoint c, s) | e ∷ es ↦ chosen ]

-- `RegistrarGetChatServer` of src/stationchat/protocol/Protocol.cpp: the choice, and what it
-- reports.
unfoldable pub choose_chat_server :
    Clock → Config → Text → ℕ → RegistrarNode → Endpoint × RegistrarNode
choose_chat_server clock c hostname port s =
    let (endpoint, chosen) = select_gateway_endpoint clock c hostname port s in
    let missed =
      if (not (is_blank hostname) && not (port == 0)) && not (matches endpoint hostname port)
      then report_gateway_failure clock hostname port chosen
      else chosen in
    (endpoint, report_gateway_success endpoint.address endpoint.port missed)

-- The handler with its conversions: the hostname and the port of the response.
unfoldable pub get_chat_server :
    Bool → Clock → Config → Text → ℕ → RegistrarNode → (Text × ℕ) × RegistrarNode
unfolding choose_chat_server
get_chat_server char_is_signed clock c hostname port s =
    let r = choose_chat_server clock c (from_wide_string hostname) port s in
    ((to_wide_string char_is_signed r.0.address, r.0.port), r.1)
