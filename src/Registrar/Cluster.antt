-- ===== src/Registrar/Cluster.antt =====
-- `NormalizeClusterGateways` of src/stationchat/StationChatConfig.hpp and `RebuildClusterView` of
-- src/stationchat/RegistrarNode.cpp, as far as the list of endpoints goes.
pub mod Weights
pub mod Normal
use stationapiv.Prelude.{
  ℕ, zero, suc, ◌+◌, ◌++◌, min, max, Bool, true, false, not, List, [], ◌∷◌, Text, any, length,
  replicate, ltb, ◌==◌, if◌then◌else◌,
}
use stationapiv.Registrar.{Endpoint, Config, matches}

-- `if (endpoint.weight == 0) { endpoint.weight = 1; }`
unfoldable pub positive_weight : Endpoint → Endpoint
positive_weight e = if e.weight == 0 then record e { weight = 1 } else e

unfoldable pub positive_weights : List Endpoint → List Endpoint
positive_weights [] = []
positive_weights (e ∷ es) = positive_weight e ∷ positive_weights es

-- The sum of two weights in 32 bits, cut to 16.
unfoldable pub add_weight : ℕ → ℕ → ℕ
add_weight a b = if ltb 65535 (a + b) then 65535 else a + b

-- `accumulateEndpoint`
unfoldable pub accumulate : List Endpoint → Endpoint → List Endpoint
accumulate [] e = e ∷ []
accumulate (u ∷ us) e =
    let rest = u ∷ accumulate us e in
    if matches u e.address e.port
    then record u { weight = add_weight u.weight e.weight } ∷ us
    else rest

unfoldable pub accumulate_all : List Endpoint → List Endpoint → List Endpoint
accumulate_all us [] = us
accumulate_all us (e ∷ es) = accumulate_all (accumulate us e) es

abbrev pub self_endpoint : Config → Endpoint
self_endpoint c = record { address = c.gateway_address; port = c.gateway_port; weight = 1 }

unfoldable pub with_self : Endpoint → List Endpoint → List Endpoint
with_self self us = if any (λ u. matches u self.address self.port) us then us else us ++ self ∷ []

unfoldable pub normalize_cluster_gateways : Config → Config
normalize_cluster_gateways c = record c {
  gateway_cluster =
      with_self (self_endpoint c) (accumulate_all [] (positive_weights c.gateway_cluster));
}

-- `kMaxWeight`
abbrev pub max_weight : ℕ
max_weight = 100

-- How often an endpoint stands in the weighted view.
unfoldable pub repetitions : Endpoint → ℕ
repetitions e = min (max 1 e.weight) max_weight

unfoldable pub weighted_view : List Endpoint → List Endpoint
weighted_view [] = []
weighted_view (e ∷ es) = replicate (repetitions e) e ++ weighted_view es

unfoldable pub or_self : Endpoint → List Endpoint → List Endpoint
or_self self [] = self ∷ []
or_self self (e ∷ es) = e ∷ es

-- `weightedEndpoints` of the rebuilt view: the gateway itself where the cluster is empty.
unfoldable pub weighted_endpoints : Config → List Endpoint
unfolding or_self
weighted_endpoints c = or_self (self_endpoint c) (weighted_view c.gateway_cluster)

-- `uniqueEndpoints`: the first of those that match.
unfoldable pub unique_endpoints : List Endpoint → List Endpoint → List Endpoint
unique_endpoints us [] = us
unique_endpoints us (e ∷ es) =
    unique_endpoints (if any (λ u. matches u e.address e.port) us then us else us ++ e ∷ []) es
