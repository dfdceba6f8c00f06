-- ===== src/Registrar/Life.antt =====
-- A registrar from its construction on: `RegistrarNode::RegistrarNode` of
-- src/stationchat/RegistrarNode.cpp, then one REGISTRAR_GETCHATSERVER request after the other.
use stationapiv.Prelude.{
  ℕ, zero, suc, ◌+◌, ◌%◌, ◌^◌, ◌≤◌, ◌<◌, ◌≡◌, refl, sym, ap, ◌∙◌, ◌++◌, append_assoc, inl, inr,
  Bool, true, map, List, [], ◌∷◌, Text, text_eq, length, get_or, drop, drop-eq-nil, replicate, any,
  any-append, All, All-append, arith, Bool-cases,
}
use native.Mathlib.Nat.{mod-eq_of_lt}
use stationapiv.Registrar.{Endpoint, Config, matches}
use stationapiv.Registrar.Cluster.{
  self_endpoint, weighted_view, or_self, weighted_endpoints, unique_endpoints, repetitions,
}
use stationapiv.Registrar.Cluster.Normal.{matches_self}
use stationapiv.Registrar.Cluster.Weights.{length-weighted_endpoints}
use stationapiv.Registrar.Health.{
  HealthMap, RegistrarNode, Clock, lookup, carry_over, rebuild_cluster_view,
}
use stationapiv.Registrar.Entries.{HasPort, knows, Calm}
use stationapiv.Registrar.Calm.{node, no_endpoint}
use stationapiv.Registrar.Select.{get_chat_server}
use stationapiv.Registrar.Requests.{Choice, choose_chat_server-Choice}
use stationapiv.Strings.{from_wide_string, to_wide_string}

-- The node as it is constructed, with the time of no reading.
unfoldable pub registrar_node : Config → RegistrarNode
registrar_node c = rebuild_cluster_view c (node [] [] 0 0)

-- The hostname and the port of a response with a gateway, given the sign of `char`
abbrev pub response_of : Bool → Endpoint → Text × ℕ
response_of char_is_signed e = (to_wide_string char_is_signed e.address, e.port)

-- Requests of a preferred address and port, and the responses in order.
unfoldable pub serve :
    Bool → Clock → Config → List (Text × ℕ) → RegistrarNode → List (Text × ℕ) × RegistrarNode
unfolding get_chat_server
serve signed clock c [] s = ([], s)
serve signed clock c (r ∷ rs) s =
    let (e, s₁) = get_chat_server signed clock c r.0 r.1 s in
    let (es, s₂) = serve signed clock c rs s₁ in (e ∷ es, s₂)

replicate-All {ℓ κ} : {A : Type ℓ} (P : A → Type κ) (n : ℕ) (a : A) → P a → All P (replicate n a)
replicate-All P zero a h = tt
replicate-All P (suc n) a h = (h, replicate-All P n a h)

weighted_view-HasPort : (es : List Endpoint) → All HasPort es → All HasPort (weighted_view es)
unfolding weighted_view
weighted_view-HasPort [] h = tt
weighted_view-HasPort (e ∷ es) h =
    All-append HasPort (replicate (repetitions e) e) (weighted_view es)
      (replicate-All HasPort (repetitions e) e h.0) (weighted_view-HasPort es h.1)

or_self-HasPort :
    (self : Endpoint) (es : List Endpoint)
    → HasPort self
    → All HasPort es
    → All HasPort (or_self self es)
unfolding or_self
or_self-HasPort self [] h k = (h, tt)
or_self-HasPort self (e ∷ es) h k = k

abbrev pub HasPorts : Config → Type 0
HasPorts c = (c.gateway_port < 2 ^ 16) × All HasPort c.gateway_cluster

weighted_endpoints-HasPort : (c : Config) → HasPorts c → All HasPort (weighted_endpoints c)
unfolding weighted_endpoints
weighted_endpoints-HasPort c h =
    or_self-HasPort (self_endpoint c) (weighted_view c.gateway_cluster) h.0
      (weighted_view-HasPort c.gateway_cluster h.1)

module _ (view : List Endpoint) where
  abbrev Known : Endpoint → Type 0
  Known e = HasPort e × (knows view e.address e.port ≡ true)

  unique_endpoints-Known :
      (us es : List Endpoint) → All Known us → All Known es → All Known (unique_endpoints us es)
  unfolding unique_endpoints
  unique_endpoints-Known us [] h k = h
  unique_endpoints-Known us (e ∷ es) h k =
      elim (Bool-cases (any (λ u. matches u e.address e.port) us)) [
        | inl b ↦ rw b (unique_endpoints-Known us es h k.1)
        | inr b ↦ rw b (
            unique_endpoints-Known (us ++ e ∷ []) es (All-append Known us (e ∷ []) h (k.0, tt)) k.1)
      ]

  carry_over-Calm : (es : List Endpoint) → All Known es → All (Calm view) (carry_over [] es)
  unfolding carry_over lookup
  carry_over-Calm [] h = tt
  carry_over-Calm (e ∷ es) h = ((refl, h.0.0, refl, h.0.1), carry_over-Calm es h.1)

known_self :
    (front es : List Endpoint) (e : Endpoint) → knows (front ++ e ∷ es) e.address e.port ≡ true
unfolding any
known_self front es e =
    ground (arith, any-append (λ u. matches u e.address e.port) front (e ∷ es), matches_self e)

self_in_view : (front es : List Endpoint) → All HasPort es → All (Known (front ++ es)) es
self_in_view front [] h = tt
self_in_view front (e ∷ es) h = (
  (h.0, known_self front es e),
  rw (append_assoc front (e ∷ []) es) at (self_in_view (front ++ e ∷ []) es h.1),
)

fresh-Calm :
    (c : Config)
    → HasPorts c
    → All (Calm (weighted_endpoints c)) (carry_over [] (unique_endpoints [] (weighted_endpoints c)))
fresh-Calm c h =
    let view = weighted_endpoints c in
    carry_over-Calm view (unique_endpoints [] view) (
      unique_endpoints-Known view [] view tt
        (self_in_view [] view (weighted_endpoints-HasPort c h)))

next_index_bound :
    (view : List Endpoint) (a : Text) (p i j : ℕ) (e : Endpoint)
    → i < 2 ^ 64
    → Choice view a p i e j
    → j < 2 ^ 64
next_index_bound view a p i j e h (inl (b, k, m, q)) = rw q h
next_index_bound view a p i j e h (inr (u, q, n)) = rw n (omega arith)

blank_request :
    (view : List Endpoint) (i j : ℕ) (e : Endpoint)
    → i < length view
    → length view < 2 ^ 64
    → Choice view [] 0 i e j
    → (e ≡ get_or view i no_endpoint) × (j ≡ suc i)
unfolding text_eq
blank_request view i j e h k (inl (b, known, m, q)) = cc
blank_request view i j e h k (inr (u, q, n)) =
    let same_index : i % length view ≡ i = mod-eq_of_lt h in
    (q ∙ ap (λ x. get_or view x no_endpoint) same_index, omega (arith, n))

drop-get_or :
    (xs : List Endpoint) (i : ℕ) (d : Endpoint)
    → i < length xs
    → drop i xs ≡ get_or xs i d ∷ drop (suc i) xs
drop-get_or [] i d h = absurd (omega arith)
drop-get_or (x ∷ xs) zero d h = refl
drop-get_or (x ∷ xs) (suc i) d h = drop-get_or xs i d (omega arith)

module _ (signed : Bool) (clock : Clock) (c : Config) (view : List Endpoint)
    (ports : All HasPort view) (full : 1 ≤ length view) where
  serve-Calm :
      (rs : List (Text × ℕ)) (i r : ℕ) (m : HealthMap)
      → All (λ q. q.1 < 2 ^ 16) rs
      → i < 2 ^ 64
      → All (Calm view) m
      → (m' : HealthMap) × (j r' : ℕ) × ((serve signed clock c rs (node view m i r)).1
          ≡ node view m' j r')
        × All (Calm view) m'
  unfolding serve
  serve-Calm [] i r m hp hi calm = (m, i, r, refl, calm)
  serve-Calm (q ∷ rs) i r m hp hi calm =
      let (e, m₁, j, r₁, step, ch, c₁) =
        choose_chat_server-Choice clock view ports full c (from_wide_string q.0) q.1 i r m hp.0 hi
          calm in
      let (m₂, k, r₂, steps, c₂) =
        serve-Calm rs j r₁ m₁ hp.1 (next_index_bound view (from_wide_string q.0) q.1 i j e hi ch)
          c₁ in
      (
        m₂,
        k,
        r₂,
        ap (λ (out : Endpoint × RegistrarNode). (serve signed clock c rs out.1).1) step ∙ steps,
        c₂,
      )

  serve_in_turn :
      (n i r : ℕ) (m : HealthMap)
      → i + n ≡ length view
      → length view < 2 ^ 64
      → All (Calm view) m
      → (serve signed clock c (replicate n ([], 0)) (node view m i r)).0
        ≡ map (response_of signed) (drop i view)
  unfolding serve from_wide_string
  serve_in_turn zero i r m h k calm =
      ap (map (response_of signed)) (sym (drop-eq-nil i view (omega arith)))
  serve_in_turn (suc n) i r m h k calm =
      let (e, m₁, j, r₁, step, ch, c₁) =
        choose_chat_server-Choice clock view ports full c [] 0 i r m (omega arith) (omega arith)
          calm in
      let (same, next) = blank_request view i j e (omega arith) k ch in
      let rest = serve_in_turn n j r₁ m₁ (omega (arith, next)) k c₁ in
      ap
        (λ (out : Endpoint × RegistrarNode).
          response_of signed out.0 ∷ (serve signed clock c (replicate n ([], 0)) out.1).0)
        step
      ∙ ap
          (λ x.
            response_of signed x
            ∷ (serve signed clock c (replicate n ([], 0)) (node view m₁ j r₁)).0)
          same
      ∙ ap (λ xs. response_of signed (get_or view i no_endpoint) ∷ xs)
          (rest ∙ ap (λ x. map (response_of signed) (drop x view)) next)
      ∙ ap (map (response_of signed)) (sym (drop-get_or view i no_endpoint (omega arith)))

never_blacklisted :
    (view : List Endpoint) (m : HealthMap)
    → All (Calm view) m
    → All (λ e. e.1.blacklist_until ≡ 0) m
never_blacklisted view [] c = tt
never_blacklisted view ((k, h) ∷ m) c = (c.0.2, never_blacklisted view m c.1)

-- A registrar whose ports are 16-bit, constructed and then asked any number of requests with 16-bit
-- ports, has blacklisted no gateway, whatever its clock reads.
pub serve_never_blacklists :
    (signed : Bool) (clock : Clock) (c : Config) (rs : List (Text × ℕ))
    → HasPorts c
    → All (λ q. q.1 < 2 ^ 16) rs
    → All
        (λ e. e.1.blacklist_until ≡ 0)
        (serve signed clock c rs (registrar_node c)).1.endpoint_health
unfolding registrar_node rebuild_cluster_view
serve_never_blacklists signed clock c rs h hp =
    let view = weighted_endpoints c in
    let (m, j, r, steps, calm) =
      serve-Calm signed clock c view (weighted_endpoints-HasPort c h)
        ((length-weighted_endpoints c).0) rs 0 0 _ hp (omega arith) (fresh-Calm c h) in
    rw steps (never_blacklisted view m calm)

-- A registrar just constructed, with 16-bit ports and a weighted view of less than 2^64
-- endpoints, answers as many requests without a preference as the view is long with the widened
-- hostnames and the ports of the view, in order; so each gateway is given in proportion to its
-- clamped weight.
pub serve_round :
    (signed : Bool) (clock : Clock) (c : Config)
    → HasPorts c
    → length (weighted_endpoints c) < 2 ^ 64
    → (serve signed clock c
        (replicate (length (weighted_endpoints c)) ([], 0))
        (registrar_node c)).0
      ≡ map (response_of signed) (weighted_endpoints c)
unfolding registrar_node rebuild_cluster_view
serve_round signed clock c h k =
    serve_in_turn signed clock c (weighted_endpoints c) (weighted_endpoints-HasPort c h)
      ((length-weighted_endpoints c).0) (length (weighted_endpoints c)) 0 0 _ (omega arith) k
      (fresh-Calm c h)
