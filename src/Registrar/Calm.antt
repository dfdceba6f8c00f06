-- ===== src/Registrar/Calm.antt =====
-- The life of a registrar that starts with no gateway blacklisted: requests never blacklist one,
-- and the choice is the preferred gateway or the next in turn.
use stationapiv.Prelude.{
  ℕ, zero, suc, ◌+◌, ◌-◌, ◌%◌, ◌^◌, ◌≤◌, ◌<◌, ◌≡◌, refl, ap, ◌⊎◌, inl, inr, Bool, true, false, ◌||◌,
  List, [], ◌∷◌, Option, none, some, Text, length, get_or, any, All, ◌==◌, if◌then◌else◌, arith,
  Bool-cases,
}
use stationapiv.Registrar.{Endpoint, matches, make_endpoint_key}
use stationapiv.Registrar.Cluster.Normal.{matches_self}
use stationapiv.Registrar.Health.{
  EndpointHealth, HealthMap, RegistrarNode, Clock, update, mark_success, find_endpoint_health,
  ensure_entry, is_blank, report_gateway_failure, report_gateway_success,
}
use stationapiv.Registrar.Entries.{
  HasPort, knows, Calm, Found, find_endpoint_health-Calm, ensure_entry-Calm, update-Calm,
}
use stationapiv.Registrar.Select.{is_blacklisted, try_candidate, scan, select_round, try_preferred}

-- A registrar by its fields.
abbrev pub node : List Endpoint → HealthMap → ℕ → ℕ → RegistrarNode
node view m index reads = record {
  weighted_gateway_endpoints = view;
  endpoint_health = m;
  next_gateway_index = index;
  reads = reads;
}

is_blacklisted_calm :
    (clock : Clock) (h : EndpointHealth) (s : RegistrarNode)
    → h.blacklist_until ≡ 0
    → is_blacklisted clock h s ≡ (false, s)
unfolding is_blacklisted
is_blacklisted_calm clock h s e = ground arith

abbrev pub no_endpoint : Endpoint
no_endpoint = record { address = []; port = 0; weight = 1 }

pub get_or-knows :
    (view : List Endpoint) (j : ℕ)
    → All HasPort view
    → j < length view
    → let e : Endpoint = get_or view j no_endpoint in
      (knows view e.address e.port ≡ true) × HasPort e
unfolding any
get_or-knows [] j ports h = absurd (omega arith)
get_or-knows (e ∷ es) zero ports h = (ground (arith, matches_self e), ports.0)
get_or-knows (e ∷ es) (suc j) ports h =
    let (k, p) = get_or-knows es j ports.1 (omega arith) in (ground arith, p)

module _ (clock : Clock) (view : List Endpoint) (ports : All HasPort view) where
  candidate_found :
      (e : Endpoint) (o : Option EndpointHealth) (m : HealthMap) (i r : ℕ)
      → Found view ports e.address e.port o
      → ◌≡◌ {A = Option Endpoint × RegistrarNode}
          (elim o [
            | none ↦ (some e, node view m i r)
            | some h ↦
                let out : Bool × RegistrarNode = is_blacklisted clock h (node view m i r) in
                (if out.0 then none else some e, out.1)
          ])
          (some e, node view m i r)
  candidate_found e none m i r f = refl
  candidate_found e (some h) m i r f = rw (is_blacklisted_calm clock h (node view m i r) f.2.2)

  try_candidate-Calm :
      (e : Endpoint) (m : HealthMap) (i r : ℕ)
      → HasPort e
      → knows view e.address e.port ≡ true
      → All (Calm view) m
      → (m' : HealthMap) × (try_candidate clock e (node view m i r) ≡ (some e, node view m' i r))
        × All (Calm view) m'
  unfolding try_candidate
  try_candidate-Calm e m i r he known c =
      let out : Option EndpointHealth × HealthMap =
        find_endpoint_health e.address e.port view (ensure_entry e m) in
      let (f, c') =
        find_endpoint_health-Calm view ports e.address e.port (ensure_entry e m) he
          (ensure_entry-Calm view ports e m he known c) in
      (out.1, candidate_found e out.0 out.1 i r f, c')

  scan_step :
      (left offset index : ℕ) (s s' : RegistrarNode) (e : Endpoint)
      → try_candidate clock
          (get_or s.weighted_gateway_endpoints
            ((index + offset) % 2 ^ 64 % length s.weighted_gateway_endpoints)
            no_endpoint)
          s
        ≡ (some e, s')
      → scan clock (suc left) offset index s ≡ (some e, s')
  unfolding scan
  scan_step left offset index s s' e h =
      rw (h, scan) (ap (λ (out : Option Endpoint × RegistrarNode). (some e, out.1)) h)

  scan-Calm :
      (left index : ℕ) (m : HealthMap) (i r : ℕ)
      → 1 ≤ length view
      → All (Calm view) m
      → (m' : HealthMap) × (scan clock (suc left) 0 index (node view m i r)
          ≡ (some (get_or view ((index + 0) % 2 ^ 64 % length view) no_endpoint), node view m' i r))
        × All (Calm view) m'
  scan-Calm left index m i r n c =
      let (known, he) =
        get_or-knows view ((index + 0) % 2 ^ 64 % length view) ports (omega arith) in
      let (m', e, c') =
        try_candidate-Calm (get_or view ((index + 0) % 2 ^ 64 % length view) no_endpoint) m i r he
          known c in
      (m', scan_step left 0 index (node view m i r) (node view m' i r) _ e, c')

  -- The next endpoint in turn.
  abbrev pub turn : ℕ → Endpoint
  turn i = get_or view (i % length view) no_endpoint

  select_round_step :
      (s s' : RegistrarNode) (e : Endpoint)
      → scan clock
          (length s.weighted_gateway_endpoints)
          0
          s.next_gateway_index
          (record s { next_gateway_index = (s.next_gateway_index + 1) % 2 ^ 64 })
        ≡ (some e, s')
      → select_round clock s ≡ (e, s')
  unfolding select_round
  select_round_step s s' e h =
      rw (h, select_round) (ap (λ (out : Option Endpoint × RegistrarNode). (e, out.1)) h)

  pub select_round-Calm :
      (m : HealthMap) (i r : ℕ)
      → 1 ≤ length view
      → i < 2 ^ 64
      → All (Calm view) m
      → (m' : HealthMap) × (select_round clock (node view m i r)
          ≡ (turn i, node view m' ((i + 1) % 2 ^ 64) r))
        × All (Calm view) m'
  select_round-Calm m i r n hi c =
      let (m', e, c') = scan-Calm (length view - 1) i m ((i + 1) % 2 ^ 64) r n c in
      let same_index : (i + 0) % 2 ^ 64 ≡ i = omega arith in
      let same_length : suc (length view - 1) ≡ length view = omega arith in
      (m', select_round_step (node view m i r) _ _ (rw (same_index, same_length) at e), c')

  -- What the preferred endpoint comes to: it is given back if the view knows it.
  abbrev pub Preferred : Text → ℕ → Option Endpoint → Type 0
  Preferred a p none = (is_blank a || p == 0 ≡ true) ⊎ (knows view a p ≡ false)
  Preferred a p (some e) = (matches e a p ≡ true) × (knows view a p ≡ true)

  calm_answer :
      (a : Text) (p : ℕ) (o : Option EndpointHealth) (m : HealthMap) (i r : ℕ)
      → Found view ports a p o
      → (e : Option Endpoint) × (◌≡◌ {A = Option Endpoint × RegistrarNode}
          (elim o [
            | none ↦ (none, node view m i r)
            | some h ↦
                let out : Bool × RegistrarNode = is_blacklisted clock h (node view m i r) in
                (if out.0 then none else some h.endpoint, out.1)
          ])
          (e, node view m i r))
        × Preferred a p e
  calm_answer a p none m i r f = (none, refl, f)
  calm_answer a p (some h) m i r f =
      (some h.endpoint, rw (is_blacklisted_calm clock h (node view m i r) f.2.2), (f.0, f.1))

  pub try_preferred-Calm :
      (a : Text) (p : ℕ) (m : HealthMap) (i r : ℕ)
      → p < 2 ^ 16
      → All (Calm view) m
      → (e : Option Endpoint) × (m' : HealthMap) × (try_preferred clock a p (node view m i r)
          ≡ (e, node view m' i r))
        × Preferred a p e
        × All (Calm view) m'
  unfolding try_preferred
  try_preferred-Calm a p m i r hp c =
      let out : Option EndpointHealth × HealthMap = find_endpoint_health a p view m in
      let (f, c') = find_endpoint_health-Calm view ports a p m hp c in
      let (e, q, pr) = calm_answer a p out.0 out.1 i r f in (e, out.1, q, pr, c')

  mark_success-Calm :
      (k : Text) (h : EndpointHealth) → Calm view (k, h) → Calm view (k, mark_success h)
  unfolding mark_success
  mark_success-Calm k h c = (c.0, c.1, refl, c.3)

  reported :
      (a : Text) (p : ℕ) (o : Option EndpointHealth) (m : HealthMap) (i r : ℕ)
      → Found view ports a p o
      → All (Calm view) m
      → (m' : HealthMap) × (◌≡◌ {A = RegistrarNode}
          (elim o [
            | none ↦ node view m i r
            | some h ↦ node view (update (make_endpoint_key a p) (mark_success h) m) i (r + 0)
          ])
          (node view m' i r))
        × All (Calm view) m'
  reported a p none m i r f c = (m, refl, c)
  reported a p (some h) m i r f c = (
    update (make_endpoint_key a p) (mark_success h) m,
    ap (λ x. node view (update (make_endpoint_key a p) (mark_success h) m) i x) (omega arith),
    update-Calm view _ _ m c (mark_success-Calm (make_endpoint_key a p) h f.2),
  )

  -- A report leaves a calm registrar calm if it is of success, or of an endpoint unknown.
  pub report_success-Calm :
      (a : Text) (p : ℕ) (m : HealthMap) (i r : ℕ)
      → p < 2 ^ 16
      → All (Calm view) m
      → (m' : HealthMap) × (report_gateway_success a p (node view m i r) ≡ node view m' i r)
        × All (Calm view) m'
  unfolding report_gateway_success
  report_success-Calm a p m i r hp c = elim (Bool-cases (is_blank a || p == 0)) [
    | inl b ↦ (m, rw b, c)
    | inr b ↦
        let out : Option EndpointHealth × HealthMap = find_endpoint_health a p view m in
        let (f, c') = find_endpoint_health-Calm view ports a p m hp c in
        let (m', e, c'') = reported a p out.0 out.1 i r f c' in (m', rw b e, c'')
  ]

  unknown_found :
      (f : EndpointHealth → EndpointHealth) (a : Text) (p : ℕ) (o : Option EndpointHealth)
      (m : HealthMap) (i r : ℕ)
      → Found view ports a p o
      → knows view a p ≡ false
      → ◌≡◌ {A = RegistrarNode}
          (elim o [
            | none ↦ node view m i r
            | some h ↦ node view (update (make_endpoint_key a p) (f h) m) i (r + 1)
          ])
          (node view m i r)
  unknown_found f a p none m i r found u = refl
  unknown_found f a p (some h) m i r found u = cc (found.1)

  pub report_failure-Calm :
      (a : Text) (p : ℕ) (m : HealthMap) (i r : ℕ)
      → p < 2 ^ 16
      → knows view a p ≡ false
      → All (Calm view) m
      → (m' : HealthMap) × (report_gateway_failure clock a p (node view m i r) ≡ node view m' i r)
        × All (Calm view) m'
  unfolding report_gateway_failure
  report_failure-Calm a p m i r hp u c = elim (Bool-cases (is_blank a || p == 0)) [
    | inl b ↦ (m, rw b, c)
    | inr b ↦
        let out : Option EndpointHealth × HealthMap = find_endpoint_health a p view m in
        let (f, c') = find_endpoint_health-Calm view ports a p m hp c in
        (out.1, rw b (unknown_found _ a p out.0 out.1 i r f u), c')
  ]
