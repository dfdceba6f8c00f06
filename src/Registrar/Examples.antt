-- ===== src/Registrar/Examples.antt =====
-- Runs of the registrar, and the theorems about it at a concrete cluster.
use stationapiv.Prelude.{
  ◌⊎◌, ℕ, ◌+◌, ◌*◌, ◌≤◌, ◌<◌, ◌≡◌, refl, ◌↔◌, true, [], ◌∷◌, All, count, replicate, any, text_eq,
  codes, arith,
}
use stationapiv.Prelude.{leb, if◌then◌else◌}
use stationapiv.Registrar.{Endpoint, Config, decimal, matches, make_endpoint_key}
use stationapiv.Registrar.Keys.{make_endpoint_key_injective}
use stationapiv.Registrar.Cluster.{
  positive_weight, positive_weights, add_weight, accumulate, accumulate_all, with_self,
  normalize_cluster_gateways, repetitions, weighted_view, or_self, weighted_endpoints,
}
use stationapiv.Registrar.Cluster.Weights.{count-weighted_endpoints}
use stationapiv.Registrar.Cluster.Normal.{IsNormal, normalize_cluster_gateways-IsNormal}
use stationapiv.Registrar.Health.{
  EndpointHealth, Clock, healthy, is_blacklisted_at, mark_failure, mark_success, prune_entry,
  second,
}
use stationapiv.Registrar.Health.Penalty.{mark_failure_penalty}
use stationapiv.Registrar.Life.{registrar_node, serve, serve_never_blacklists, serve_round}

abbrev alpha : Endpoint
alpha = record { address = codes "a"; port = 5001; weight = 2 }

abbrev beta : Endpoint
beta = record { address = codes "b"; port = 5001; weight = 1 }

-- A gateway of its own address in no cluster yet, and of a cluster of two.
abbrev raw : Config
raw = record {
  gateway_address = codes "a";
  gateway_port = 5001;
  gateway_cluster = beta ∷ beta ∷ [];
}

abbrev pair : Config
pair = record {
  gateway_address = codes "a";
  gateway_port = 5001;
  gateway_cluster = alpha ∷ beta ∷ [];
}

abbrev at_start : Clock
at_start n = n

key : make_endpoint_key (codes "a") 5001 ≡ codes "a#5001"
unfolding make_endpoint_key decimal
key = refl

weights_add :
    (normalize_cluster_gateways raw).gateway_cluster
    ≡ record beta { weight = 2 } ∷ record alpha { weight = 1 } ∷ []
unfolding normalize_cluster_gateways positive_weights positive_weight accumulate_all accumulate
    add_weight with_self any matches text_eq
weights_add = refl

make_endpoint_key_injective_example : (codes "a" ≡ codes "a") × ◌≡◌ {A = ℕ} 5001 5001
make_endpoint_key_injective_example =
    make_endpoint_key_injective (codes "a") (codes "a") 5001 5001 (ground arith) (ground arith) refl

normalize_cluster_gateways-IsNormal_example : IsNormal (normalize_cluster_gateways raw)
normalize_cluster_gateways-IsNormal_example = normalize_cluster_gateways-IsNormal raw (ground arith)

count-weighted_endpoints_example :
    count (λ u. matches u (codes "a") 5001) (weighted_endpoints pair) ≡ 2
unfolding matches text_eq
count-weighted_endpoints_example = count-weighted_endpoints pair (codes "a") 5001 (ground arith)

mark_failure_penalty_example :
    let failed : EndpointHealth = mark_failure 7 (healthy alpha) in
    ((is_blacklisted_at 9 failed ≡ true) ↔ (9 < failed.blacklist_until))
    × (7 + 5 * second ≤ failed.blacklist_until)
    × (failed.blacklist_until ≤ 7 + 60 * second)
    × (failed.blacklist_until ≤ (mark_failure 7 failed).blacklist_until)
    × ((failed.blacklist_until ≡ 7 + 60 * second)
        ⊎ (failed.blacklist_until < (mark_failure 7 failed).blacklist_until))
    × (failed.failure_count ≤ 65535)
    × (prune_entry 9 failed
        ≡ (if leb failed.blacklist_until 9 then mark_success failed else failed))
mark_failure_penalty_example = mark_failure_penalty 7 9 (healthy alpha)

serve_never_blacklists_example :
    All
      (λ e. e.1.blacklist_until ≡ 0)
      (serve true at_start pair
        ((codes "z", 5001) ∷ ([], 0) ∷ [])
        (registrar_node pair)).1.endpoint_health
serve_never_blacklists_example =
    serve_never_blacklists true at_start pair ((codes "z", 5001) ∷ ([], 0) ∷ []) (ground arith)
      (ground arith)

serve_round_example :
    (serve true at_start pair (replicate 3 ([], 0)) (registrar_node pair)).0
    ≡ (codes "a", 5001) ∷ (codes "a", 5001) ∷ (codes "b", 5001) ∷ []
unfolding weighted_endpoints weighted_view repetitions or_self stationapiv.Strings.to_wide_string
    stationapiv.Strings.widen
serve_round_example = serve_round true at_start pair (ground arith) (ground arith)
