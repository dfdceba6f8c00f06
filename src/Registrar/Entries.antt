-- ===== src/Registrar/Entries.antt =====
-- Entries of the health map that are filed under their own key, belong to the view and were never
-- blacklisted, and what the registrar's methods do to a map of such entries.
use stationapiv.Prelude.{
  ℕ, ◌^◌, ◌<◌, ◌≡◌, refl, sym, ◌⊎◌, inl, inr, Bool, true, false, ◌||◌, List, [], ◌∷◌, Option, none,
  some, Text, text_eq, text_eq→eq, any, find, All, All-append, ◌==◌, arith, Option-cases,
  Bool-cases,
}
use mathlib.Core.Path.{subst}
use stationapiv.Registrar.{Endpoint, matches, make_endpoint_key}
use stationapiv.Registrar.Keys.{make_endpoint_key_injective}
use stationapiv.Registrar.Cluster.Normal.{matches→eq, matches_self}
use stationapiv.Registrar.Health.{
  EndpointHealth, HealthMap, healthy, lookup, update, emplace, prune, prune_entry, find_or_emplace,
  find_endpoint_health, ensure_entry, is_blank,
}

abbrev pub HasPort : Endpoint → Type 0
HasPort e = e.port < 2 ^ 16

-- Whether the view has the endpoint.
abbrev pub knows : List Endpoint → Text → ℕ → Bool
knows view a p = any (λ e. matches e a p) view

-- An entry that was never blacklisted.
abbrev pub Calm : List Endpoint → Text × EndpointHealth → Type 0
Calm view (k, h) =
    (k ≡ make_endpoint_key h.endpoint.address h.endpoint.port)
    × HasPort h.endpoint
    × (h.blacklist_until ≡ 0)
    × (knows view h.endpoint.address h.endpoint.port ≡ true)

module _ (view : List Endpoint) where
  pub lookup-Calm :
      (k : Text) (m : HealthMap) (h : EndpointHealth)
      → All (Calm view) m
      → lookup k m ≡ some h
      → Calm view (k, h)
  unfolding lookup
  lookup-Calm k [] h c e = cc
  lookup-Calm k ((j, g) ∷ m) h c e = elim (Bool-cases (text_eq j k)) [
    | inl s ↦
        subst (λ x. Calm view (k, x)) (first s)
          (subst (λ x. Calm view (x, g)) (text_eq→eq j k s) c.0)
    | inr s ↦ lookup-Calm k m h c.1 (ground arith)
  ]
    where
      first : text_eq j k ≡ true → g ≡ h
      first s = ground arith

  pub update-Calm :
      (k : Text) (v : EndpointHealth) (m : HealthMap)
      → All (Calm view) m
      → Calm view (k, v)
      → All (Calm view) (update k v m)
  unfolding update
  update-Calm k v [] c e = tt
  update-Calm k v ((j, g) ∷ m) c e = elim (Bool-cases (text_eq j k)) [
    | inl s ↦ rw s (subst (λ x. Calm view (x, v)) (sym (text_eq→eq j k s)) e, c.1)
    | inr s ↦ rw s (c.0, update-Calm k v m c.1 e)
  ]

  pub emplace-Calm :
      (k : Text) (v : EndpointHealth) (m : HealthMap)
      → All (Calm view) m
      → Calm view (k, v)
      → All (Calm view) (emplace k v m)
  emplace-Calm k v m c e = All-append (Calm view) m ((k, v) ∷ []) c (e, tt)

  pub prune-Calm : (now : ℕ) (m : HealthMap) → All (Calm view) m → prune now m ≡ m
  unfolding prune prune_entry
  prune-Calm now [] c = refl
  prune-Calm now ((k, h) ∷ m) c = ground (arith, prune-Calm now m c.1)

find-known :
    (view : List Endpoint) (a : Text) (p : ℕ) (e : Endpoint)
    → find (λ u. matches u a p) view ≡ some e
    → (matches e a p ≡ true) × (knows view a p ≡ true)
unfolding find any
find-known [] a p e h = cc
find-known (u ∷ us) a p e h = ground (arith, find-known us a p e)

find-unknown :
    (view : List Endpoint) (a : Text) (p : ℕ)
    → find (λ u. matches u a p) view ≡ none
    → knows view a p ≡ false
unfolding find any
find-unknown [] a p h = refl
find-unknown (u ∷ us) a p h = ground (arith, find-unknown us a p)

find-HasPort :
    (view : List Endpoint) (a : Text) (p : ℕ) (e : Endpoint)
    → All HasPort view
    → find (λ u. matches u a p) view ≡ some e
    → HasPort e
unfolding find
find-HasPort [] a p e c h = cc
find-HasPort (u ∷ us) a p e c h = ground (arith, find-HasPort us a p e c.1)

module _ (view : List Endpoint) (ports : All HasPort view) where
  -- What a found entry of address and port is, and what it means that there is none.
  abbrev pub Found : Text → ℕ → Option EndpointHealth → Type 0
  Found a p none = (is_blank a || p == 0 ≡ true) ⊎ (knows view a p ≡ false)
  Found a p (some h) =
      (matches h.endpoint a p ≡ true)
      × (knows view a p ≡ true)
      × Calm view (make_endpoint_key a p, h)

  healthy-Calm :
      (e : Endpoint)
      → HasPort e
      → knows view e.address e.port ≡ true
      → Calm view (make_endpoint_key e.address e.port, healthy e)
  healthy-Calm e he known = (refl, he, refl, known)

  -- An entry under the key of `a` and `p` is an entry of `a` and `p`.
  entry-Found :
      (a : Text) (p : ℕ) (h : EndpointHealth)
      → p < 2 ^ 16
      → Calm view (make_endpoint_key a p, h)
      → Found a p (some h)
  entry-Found a p h hp c =
      let (same_address, same_port) =
        make_endpoint_key_injective a h.endpoint.address p h.endpoint.port hp c.1 c.0 in
      (rw (same_address, same_port) (matches_self h.endpoint), rw (same_address, same_port) c.3, c)

  find_or_emplace-Calm :
      (a : Text) (p : ℕ) (o : Option EndpointHealth) (seen : Option Endpoint) (m : HealthMap)
      → p < 2 ^ 16
      → All (Calm view) m
      → ((h : EndpointHealth) → o ≡ some h → Calm view (make_endpoint_key a p, h))
      → ((e : Endpoint) → seen ≡ some e → Calm view (make_endpoint_key a p, healthy e))
      → (seen ≡ none → knows view a p ≡ false)
      → let out : Option EndpointHealth × HealthMap =
          find_or_emplace (make_endpoint_key a p) o seen m in
        Found a p out.0 × All (Calm view) out.1
  unfolding find_or_emplace
  find_or_emplace-Calm a p (some h) seen m hp c ho hs hn = (entry-Found a p h hp (ho h refl), c)
  find_or_emplace-Calm a p none (some e) m hp c ho hs hn =
      (entry-Found a p (healthy e) hp (hs e refl), emplace-Calm view _ _ m c (hs e refl))
  find_or_emplace-Calm a p none none m hp c ho hs hn = (inr (hn refl), c)

  seen-Calm :
      (a : Text) (p : ℕ) (e : Endpoint)
      → find (λ u. matches u a p) view ≡ some e
      → Calm view (make_endpoint_key a p, healthy e)
  seen-Calm a p e h =
      let (m, k) = find-known view a p e h in
      let (same_address, same_port) = matches→eq e a p m in
      subst (λ x. Calm view (make_endpoint_key x p, healthy e)) same_address
        (subst (λ x. Calm view (make_endpoint_key e.address x, healthy e)) same_port
          (healthy-Calm e (find-HasPort view a p e ports h) (rw (same_address, same_port) k)))

  -- `FindEndpointHealthLocked` keeps a calm map calm, and finds just what the view knows.
  pub find_endpoint_health-Calm :
      (a : Text) (p : ℕ) (m : HealthMap)
      → p < 2 ^ 16
      → All (Calm view) m
      → let out : Option EndpointHealth × HealthMap = find_endpoint_health a p view m in
        Found a p out.0 × All (Calm view) out.1
  unfolding find_endpoint_health
  find_endpoint_health-Calm a p m hp c = elim (Bool-cases (is_blank a || p == 0)) [
    | inl b ↦ rw b (inl b, c)
    | inr b ↦ rw b (
        find_or_emplace-Calm a p _ _ m hp c (λ h. lookup-Calm view (make_endpoint_key a p) m h c)
          (seen-Calm a p) (find-unknown view a p))
  ]

  -- `EnsureEndpointEntryLocked` of an endpoint of the view
  pub ensure_entry-Calm :
      (e : Endpoint) (m : HealthMap)
      → HasPort e
      → knows view e.address e.port ≡ true
      → All (Calm view) m
      → All (Calm view) (ensure_entry e m)
  unfolding ensure_entry
  ensure_entry-Calm e m he known c =
      elim (Option-cases (lookup (make_endpoint_key e.address e.port) m)) [
        | inl n ↦ rw (n, ensure_entry) (emplace-Calm view _ _ m c (healthy-Calm e he known))
        | inr (h, s) ↦
            rw (s, ensure_entry)
              (update-Calm view _ _ m c (refl, he, (lookup-Calm view _ m h c s).2, known))
      ]
