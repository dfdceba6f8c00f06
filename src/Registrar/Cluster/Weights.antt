-- ===== src/Registrar/Cluster/Weights.antt =====
-- The weighted view is never empty, holds each endpoint in proportion to its clamped weight, and is
-- bounded.
use stationapiv.Prelude.{
  ℕ, zero, suc, ◌+◌, ◌*◌, ◌≤◌, ◌≡◌, refl, ap, min, max, Bool, List, [], ◌∷◌, Text, count,
  count-append, length, length-append, replicate, if◌then◌else◌, arith,
}
use stationapiv.Registrar.{Endpoint, Config, matches}
use stationapiv.Registrar.Cluster.{
  repetitions, weighted_view, weighted_endpoints, or_self, max_weight, self_endpoint,
}

length-replicate {ℓ} : {A : Type ℓ} (n : ℕ) (a : A) → length (replicate n a) ≡ n
length-replicate zero a = refl
length-replicate (suc n) a = ap suc (length-replicate n a)

repetitions_bounds : (e : Endpoint) → (1 ≤ repetitions e) × (repetitions e ≤ max_weight)
unfolding repetitions
repetitions_bounds e = omega arith

length-weighted_view :
    (es : List Endpoint)
    → (length es ≤ length (weighted_view es)) × (length (weighted_view es) ≤ 100 * length es)
unfolding weighted_view
length-weighted_view [] = omega arith
length-weighted_view (e ∷ es) =
    rw
      (
        length-append (replicate (repetitions e) e) (weighted_view es),
        length-replicate (repetitions e) e,
      )
      (omega (arith, repetitions_bounds e, length-weighted_view es))

length-or_self :
    (self : Endpoint) (es : List Endpoint) → length (or_self self es) ≡ max 1 (length es)
unfolding or_self
length-or_self self [] = omega arith
length-or_self self (e ∷ es) = omega arith

-- The weighted view has an entry at least for each endpoint of the cluster and one in any case, and
-- a hundred at most for each.
pub length-weighted_endpoints :
    (c : Config)
    → (1 ≤ length (weighted_endpoints c))
      × (length c.gateway_cluster ≤ length (weighted_endpoints c))
      × (length (weighted_endpoints c) ≤ 100 * max 1 (length c.gateway_cluster))
unfolding weighted_endpoints
length-weighted_endpoints c = omega (
  arith,
  length-or_self (self_endpoint c) (weighted_view c.gateway_cluster),
  length-weighted_view c.gateway_cluster,
)

-- The clamped weights of the endpoints of an address and a port, summed.
abbrev pub share : Text → ℕ → List Endpoint → ℕ
share address port [] = 0
share address port (e ∷ es) =
    (if matches e address port then min (max 1 e.weight) 100 else 0) + share address port es

count-replicate :
    (p : Endpoint → Bool) (n : ℕ) (e : Endpoint) → count p (replicate n e) ≡ (if p e then n else 0)
unfolding count
count-replicate p zero e = ground arith
count-replicate p (suc n) e = ground (arith, count-replicate p n e)

count-weighted_view :
    (address : Text) (port : ℕ) (es : List Endpoint)
    → count (λ u. matches u address port) (weighted_view es) ≡ share address port es
unfolding weighted_view count repetitions
count-weighted_view address port [] = refl
count-weighted_view address port (e ∷ es) = ground (
  arith,
  count-append (λ u. matches u address port) (replicate (repetitions e) e) (weighted_view es),
  count-replicate (λ u. matches u address port) (repetitions e) e,
  count-weighted_view address port es,
)

or_self_nonempty : (self : Endpoint) (es : List Endpoint) → 1 ≤ length es → or_self self es ≡ es
unfolding or_self
or_self_nonempty self [] h = absurd (omega arith)
or_self_nonempty self (e ∷ es) h = refl

-- In the view of a cluster with an endpoint at least, an endpoint stands as often as its weights,
-- each clamped to 1 to 100, add up to.
pub count-weighted_endpoints :
    (c : Config) (address : Text) (port : ℕ)
    → 1 ≤ length c.gateway_cluster
    → count (λ u. matches u address port) (weighted_endpoints c)
      ≡ share address port c.gateway_cluster
unfolding weighted_endpoints
count-weighted_endpoints c address port h =
    rw
      (or_self_nonempty (self_endpoint c) (weighted_view c.gateway_cluster)
        (omega (arith, length-weighted_view c.gateway_cluster)))
      (count-weighted_view address port c.gateway_cluster)
