-- ===== src/Registrar/Cluster/Normal.antt =====
-- What `NormalizeClusterGateways` makes of a cluster, whatever it was: no endpoint twice, weights
-- from 1 on, the gateway itself among them; and a second call changes nothing.
use stationapiv.Prelude.{
  ℕ, ◌+◌, ◌≤◌, ◌≡◌, refl, sym, ◌∙◌, ◌++◌, append_assoc, append-nil, true, false, List, [], ◌∷◌,
  Text, any, any-append, count, count-append, count_zero, count_pos, All, All-append, text_eq→eq,
  text_eq_refl, if◌then◌else◌, arith, Bool-cases, inl, inr,
}
use stationapiv.Registrar.{Endpoint, Config, matches}
use stationapiv.Registrar.Cluster.{
  positive_weight, positive_weights, add_weight, accumulate, accumulate_all, self_endpoint,
  with_self, normalize_cluster_gateways,
}

pub matches→eq :
    (e : Endpoint) (a : Text) (p : ℕ) → matches e a p ≡ true → (e.address ≡ a) × (e.port ≡ p)
unfolding matches
matches→eq e a p h = ground (arith, text_eq→eq e.address a)

pub matches_self : (e : Endpoint) → matches e e.address e.port ≡ true
unfolding matches
matches_self e = ground (arith, text_eq_refl e.address)

-- No address and port stand twice.
abbrev pub Distinct : List Endpoint → Type 0
Distinct us = (a : Text) (p : ℕ) → count (λ u. matches u a p) us ≤ 1

count-accumulate :
    (us : List Endpoint) (e : Endpoint) (a : Text) (p : ℕ)
    → count (λ u. matches u a p) (accumulate us e)
      ≡ count (λ u. matches u a p) us
        + (if any (λ u. matches u e.address e.port) us then 0 else if matches e a p then 1 else 0)
unfolding accumulate count any matches
count-accumulate [] e a p = ground arith
count-accumulate (u ∷ us) e a p = ground (arith, count-accumulate us e a p)

none_matching :
    (us : List Endpoint) (e : Endpoint) (a : Text) (p : ℕ)
    → any (λ u. matches u e.address e.port) us ≡ false
    → matches e a p ≡ true
    → count (λ u. matches u a p) us ≡ 0
none_matching us e a p h m =
    let (same_address, same_port) = matches→eq e a p m in
    rw (← same_address, ← same_port) (count_zero (λ u. matches u e.address e.port) us h)

accumulate-Distinct : (us : List Endpoint) (e : Endpoint) → Distinct us → Distinct (accumulate us e)
accumulate-Distinct us e d a p =
    ground (arith, count-accumulate us e a p, d a p, none_matching us e a p)

accumulate_all-Distinct : (us es : List Endpoint) → Distinct us → Distinct (accumulate_all us es)
unfolding accumulate_all
accumulate_all-Distinct us [] d = d
accumulate_all-Distinct us (e ∷ es) d =
    accumulate_all-Distinct (accumulate us e) es (accumulate-Distinct us e d)

abbrev pub HasWeight : Endpoint → Type 0
HasWeight e = (1 ≤ e.weight) × (e.weight ≤ 65535)

accumulate-HasWeight :
    (us : List Endpoint) (e : Endpoint)
    → HasWeight e
    → All HasWeight us
    → All HasWeight (accumulate us e)
unfolding accumulate add_weight
accumulate-HasWeight [] e he h = (he, tt)
accumulate-HasWeight (u ∷ us) e he h = ground (arith, accumulate-HasWeight us e he h.1)

positive_weights-HasWeight :
    (es : List Endpoint) → All (λ e. e.weight ≤ 65535) es → All HasWeight (positive_weights es)
unfolding positive_weights positive_weight
positive_weights-HasWeight [] h = tt
positive_weights-HasWeight (e ∷ es) h = ground (arith, positive_weights-HasWeight es h.1)

accumulate_all-HasWeight :
    (us es : List Endpoint)
    → All HasWeight es
    → All HasWeight us
    → All HasWeight (accumulate_all us es)
unfolding accumulate_all
accumulate_all-HasWeight us [] k h = h
accumulate_all-HasWeight us (e ∷ es) k h =
    accumulate_all-HasWeight (accumulate us e) es k.1 (accumulate-HasWeight us e k.0 h)

-- A cluster that a call of `NormalizeClusterGateways` has made.
pub record IsNormal (c : Config) : Type 0 where
  pub distinct : Distinct c.gateway_cluster
  pub weights : All HasWeight c.gateway_cluster
  pub has_self : any (λ u. matches u c.gateway_address c.gateway_port) c.gateway_cluster ≡ true

with_self-Distinct :
    (self : Endpoint) (us : List Endpoint) → Distinct us → Distinct (with_self self us)
unfolding with_self count
with_self-Distinct self us d a p =
    ground
      (arith, d a p, count-append (λ u. matches u a p) us (self ∷ []), none_matching us self a p)

with_self-HasWeight :
    (self : Endpoint) (us : List Endpoint)
    → HasWeight self
    → All HasWeight us
    → All HasWeight (with_self self us)
unfolding with_self
with_self-HasWeight self us hs h = ground (arith, All-append HasWeight us (self ∷ []) h (hs, tt))

with_self-has_self :
    (self : Endpoint) (us : List Endpoint)
    → any (λ u. matches u self.address self.port) (with_self self us) ≡ true
unfolding with_self any
with_self-has_self self us =
    ground
      (arith, any-append (λ u. matches u self.address self.port) us (self ∷ []), matches_self self)

-- Whatever the configured cluster, with weights of 16 bits, after the normalization no endpoint
-- stands twice, each weight lies from 1 to 65535, and the gateway itself is in the cluster.
pub normalize_cluster_gateways-IsNormal :
    (c : Config)
    → All (λ e. e.weight ≤ 65535) c.gateway_cluster
    → IsNormal (normalize_cluster_gateways c)
unfolding normalize_cluster_gateways count
normalize_cluster_gateways-IsNormal c h = record {
  distinct =
      with_self-Distinct (self_endpoint c) _
        (accumulate_all-Distinct [] (positive_weights c.gateway_cluster) (λ a p. omega arith));
  weights = with_self-HasWeight (self_endpoint c) _ (omega arith) (
      accumulate_all-HasWeight [] (positive_weights c.gateway_cluster)
        (positive_weights-HasWeight c.gateway_cluster h) tt);
  has_self = with_self-has_self (self_endpoint c) _;
}

positive_weights_normal : (us : List Endpoint) → All HasWeight us → positive_weights us ≡ us
unfolding positive_weights positive_weight
positive_weights_normal [] h = refl
positive_weights_normal (u ∷ us) h = ground (arith, positive_weights_normal us h.1)

accumulate_new :
    (us : List Endpoint) (e : Endpoint)
    → any (λ u. matches u e.address e.port) us ≡ false
    → accumulate us e ≡ us ++ e ∷ []
unfolding accumulate any
accumulate_new [] e h = refl
accumulate_new (u ∷ us) e h = ground (arith, accumulate_new us e)

not_before :
    (us es : List Endpoint) (e : Endpoint)
    → Distinct (us ++ e ∷ es)
    → any (λ u. matches u e.address e.port) us ≡ false
unfolding count
not_before us es e d = elim (Bool-cases (any (λ u. matches u e.address e.port) us)) [
  | inl h ↦ absurd (
      ground (
        arith,
        d e.address e.port,
        count-append (λ u. matches u e.address e.port) us (e ∷ es),
        count_pos (λ u. matches u e.address e.port) us h,
        matches_self e,
      ))
  | inr h ↦ h
]

accumulate_all_new : (us es : List Endpoint) → Distinct (us ++ es) → accumulate_all us es ≡ us ++ es
unfolding accumulate_all
accumulate_all_new us [] d = sym (append-nil us)
accumulate_all_new us (e ∷ es) d = rw (accumulate_new us e (not_before us es e d)) (
    accumulate_all_new (us ++ e ∷ []) es (λ a p. rw (append_assoc us (e ∷ []) es) (d a p))
    ∙ append_assoc us (e ∷ []) es)

-- A normal cluster is left as it is, so normalizing twice is normalizing once.
normalize_cluster_gateways_idem : (c : Config) → IsNormal c → normalize_cluster_gateways c ≡ c
unfolding normalize_cluster_gateways with_self
normalize_cluster_gateways_idem c n = rw (
  positive_weights_normal c.gateway_cluster n.weights,
  accumulate_all_new [] c.gateway_cluster n.distinct,
  n.has_self,
)
