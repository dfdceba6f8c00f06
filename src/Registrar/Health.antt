-- ===== src/Registrar/Health.antt =====
-- The health of the gateways in src/stationchat/RegistrarNode.cpp. The registrar holds its mutex
-- over each public method, so a method is one step; the steady clock is read anew at each check.
pub mod Penalty
use stationapiv.Prelude.{
  ℕ, zero, suc, ◌+◌, ◌*◌, ◌^◌, ◌++◌, min, Bool, true, false, not, ◌&&◌, ◌||◌, List, [], ◌∷◌, Option,
  none, some, Text, text_eq, find, ltb, leb, ◌==◌, if◌then◌else◌,
}
use stationapiv.Registrar.{Endpoint, Config, matches, make_endpoint_key}
use stationapiv.Registrar.Cluster.{weighted_endpoints, unique_endpoints}

-- `blacklist_until` counts nanoseconds of the steady clock; 0 is `time_point{}`.
pub record EndpointHealth : Type 0 where
  pub endpoint : Endpoint
  pub failure_count : ℕ
  pub blacklist_until : ℕ

abbrev pub healthy : Endpoint → EndpointHealth
healthy e = record { endpoint = e; failure_count = 0; blacklist_until = 0 }

-- `endpointHealth_`, from keys; an order of the entries is some order of the hash map's.
abbrev pub HealthMap : Type 0
HealthMap = List (Text × EndpointHealth)

unfoldable pub lookup : Text → HealthMap → Option EndpointHealth
lookup k [] = none
lookup k ((j, h) ∷ m) = if text_eq j k then some h else lookup k m

-- Writing through the pointer to an entry that is there.
unfoldable pub update : Text → EndpointHealth → HealthMap → HealthMap
update k v [] = []
update k v ((j, h) ∷ m) = if text_eq j k then (j, v) ∷ m else (j, h) ∷ update k v m

-- `emplace` of a key that is not there.
abbrev pub emplace : Text → EndpointHealth → HealthMap → HealthMap
emplace k v m = m ++ (k, v) ∷ []

-- `next_gateway_index` is a `size_t`; `reads` counts the readings of the clock.
pub record RegistrarNode : Type 0 where
  pub weighted_gateway_endpoints : List Endpoint
  pub endpoint_health : HealthMap
  pub next_gateway_index : ℕ
  pub reads : ℕ

-- The readings of `steady_clock::now()`, one after the other.
abbrev pub Clock : Type 0
Clock = ℕ → ℕ

abbrev pub second : ℕ
second = 1000000000

-- `kBaseBlacklistDuration` and `kMaxBlacklistDuration`
abbrev pub base_blacklist_duration : ℕ
base_blacklist_duration = 5 * second

abbrev pub max_blacklist_duration : ℕ
max_blacklist_duration = 60 * second

-- `IsEndpointBlacklistedLocked` at the time `now`
unfoldable pub is_blacklisted_at : ℕ → EndpointHealth → Bool
is_blacklisted_at now h = not (h.blacklist_until == 0) && ltb now h.blacklist_until

-- `PruneExpiredBlacklistLocked`
unfoldable pub prune_entry : ℕ → EndpointHealth → EndpointHealth
prune_entry now h =
    if not (h.blacklist_until == 0) && leb h.blacklist_until now
    then record h { blacklist_until = 0; failure_count = 0 }
    else h

unfoldable pub prune : ℕ → HealthMap → HealthMap
prune now [] = []
prune now ((k, h) ∷ m) = (k, prune_entry now h) ∷ prune now m

-- `MarkFailureLocked`: five seconds for each failure in a row, a minute at most.
unfoldable pub mark_failure : ℕ → EndpointHealth → EndpointHealth
mark_failure now h =
    let failures = min (h.failure_count + 1) 65535 in
    record h {
      failure_count = failures;
      blacklist_until = now + min (base_blacklist_duration * failures) max_blacklist_duration;
    }

-- `MarkSuccessLocked`
unfoldable pub mark_success : EndpointHealth → EndpointHealth
mark_success h = record h { failure_count = 0; blacklist_until = 0 }

-- `FindEndpointHealthLocked`: an entry, made if the view has such an endpoint.
unfoldable pub find_or_emplace :
    Text → Option EndpointHealth → Option Endpoint → HealthMap → Option EndpointHealth × HealthMap
find_or_emplace key (some h) seen m = (some h, m)
find_or_emplace key none (some e) m = (some (healthy e), emplace key (healthy e) m)
find_or_emplace key none none m = (none, m)

abbrev pub is_blank : Text → Bool
is_blank address = text_eq address []

unfoldable pub find_endpoint_health :
    Text → ℕ → List Endpoint → HealthMap → Option EndpointHealth × HealthMap
unfolding find_or_emplace
find_endpoint_health address port view m =
    let key = make_endpoint_key address port in
    let found = find_or_emplace key (lookup key m) (find (λ e. matches e address port) view) m in
    if is_blank address || port == 0 then (none, m) else found

-- `EnsureEndpointEntryLocked`
unfoldable pub ensure_entry : Endpoint → HealthMap → HealthMap
ensure_entry e m =
    let key = make_endpoint_key e.address e.port in
    elim (lookup key m) [
      | none ↦ emplace key (healthy e) m
      | some h ↦ update key (record h { endpoint = e }) m
    ]

-- A report that reads the clock `spent` times where it finds the endpoint.
unfoldable pub report :
    (EndpointHealth → EndpointHealth) → ℕ → Text → ℕ → RegistrarNode → RegistrarNode
report change spent address port s =
    let out = find_endpoint_health address port s.weighted_gateway_endpoints s.endpoint_health in
    if is_blank address || port == 0 then s else elim out.0 [
      | none ↦ record s { endpoint_health = out.1 }
      | some h ↦ record s {
        endpoint_health = update (make_endpoint_key address port) (change h) out.1;
        reads = s.reads + spent;
      }
    ]

-- `ReportGatewayFailure`
unfoldable pub report_gateway_failure : Clock → Text → ℕ → RegistrarNode → RegistrarNode
unfolding report
report_gateway_failure clock address port s = report (mark_failure (clock s.reads)) 1 address port s

-- `ReportGatewaySuccess`
unfoldable pub report_gateway_success : Text → ℕ → RegistrarNode → RegistrarNode
unfolding report
report_gateway_success address port s = report mark_success 0 address port s

-- `RebuildClusterView`: an endpoint keeps its health over a rebuild.
unfoldable pub carry_over : HealthMap → List Endpoint → HealthMap
carry_over old [] = []
carry_over old (e ∷ es) =
    let key = make_endpoint_key e.address e.port in
    (key, elim (lookup key old) [ none ↦ healthy e | some h ↦ record h { endpoint = e } ])
    ∷ carry_over old es

unfoldable pub rebuild_cluster_view : Config → RegistrarNode → RegistrarNode
rebuild_cluster_view c s = record s {
  weighted_gateway_endpoints = weighted_endpoints c;
  endpoint_health = carry_over s.endpoint_health (unique_endpoints [] (weighted_endpoints c));
  next_gateway_index = 0;
}
