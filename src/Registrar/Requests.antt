-- ===== src/Registrar/Requests.antt =====
-- What the registrar answers to REGISTRAR_GETCHATSERVER, request after request.
use stationapiv.Prelude.{
  ℕ, ◌+◌, ◌%◌, ◌^◌, ◌≤◌, ◌<◌, ◌≡◌, refl, ap, ◌∙◌, ◌⊎◌, inl, inr, Bool, true, false, not, ◌&&◌, ◌||◌,
  List, [], ◌∷◌, Option, none, some, Text, length, get_or, All, ◌==◌, if◌then◌else◌, arith,
  Bool-cases,
}
use stationapiv.Registrar.{Endpoint, Config, matches}
use stationapiv.Registrar.Health.{
  HealthMap, RegistrarNode, Clock, is_blank, report_gateway_failure, report_gateway_success, prune,
}
use stationapiv.Registrar.Cluster.Normal.{matches→eq}
use stationapiv.Registrar.Entries.{HasPort, knows, Calm, prune-Calm}
use stationapiv.Registrar.Calm.{
  node, no_endpoint, get_or-knows, Preferred, select_round-Calm, try_preferred-Calm,
  report_success-Calm, report_failure-Calm,
}
use stationapiv.Registrar.Select.{
  select_round, try_preferred, select_gateway_endpoint, choose_chat_server,
}

-- The gateway of a request: the preferred one, unless it is blank or unknown; else the next in
-- turn. The second number is the index afterwards.
abbrev pub Choice : List Endpoint → Text → ℕ → ℕ → Endpoint → ℕ → Type 0
Choice view a p i e j =
    ((is_blank a || p == 0 ≡ false) × (knows view a p ≡ true) × (matches e a p ≡ true) × (j ≡ i))
    ⊎ (((is_blank a || p == 0 ≡ true) ⊎ (knows view a p ≡ false))
        × (e ≡ get_or view (i % length view) no_endpoint)
        × (j ≡ (i + 1) % 2 ^ 64))

some_view {ℓ} :
    {A : Type ℓ} (view : List Endpoint) (x y : A)
    → 1 ≤ length view
    → ◌≡◌ {A = A} (elim view [ [] ↦ x | e ∷ es ↦ y ]) y
some_view [] x y h = absurd (omega arith)
some_view (e ∷ es) x y h = refl

chosen_port :
    (view : List Endpoint) (a : Text) (p i j : ℕ) (e : Endpoint)
    → All HasPort view
    → 1 ≤ length view
    → p < 2 ^ 16
    → Choice view a p i e j
    → HasPort e
chosen_port view a p i j e ports full hp (inl (b, k, m, q)) = rw ((matches→eq e a p m).1) hp
chosen_port view a p i j e ports full hp (inr (u, q, n)) =
    rw q ((get_or-knows view (i % length view) ports (omega arith)).1)

-- The test of the handler for a preferred endpoint that was not chosen
abbrev pub missed : Text → ℕ → Endpoint → Bool
missed a p e = (not (is_blank a) && not (p == 0)) && not (matches e a p)

missed-unknown :
    (view : List Endpoint) (a : Text) (p i j : ℕ) (e : Endpoint)
    → Choice view a p i e j
    → missed a p e ≡ true
    → knows view a p ≡ false
missed-unknown view a p i j e (inl (b, k, m, q)) h = ground arith
missed-unknown view a p i j e (inr (inl b, q, n)) h = ground arith
missed-unknown view a p i j e (inr (inr u, q, n)) h = u

module _ (clock : Clock) (view : List Endpoint) (ports : All HasPort view)
    (full : 1 ≤ length view) where
  unchosen :
      (a : Text) (p : ℕ)
      → (is_blank a || p == 0 ≡ false → Preferred clock view ports a p none)
      → (is_blank a || p == 0 ≡ true) ⊎ (knows view a p ≡ false)
  unchosen a p pr = elim (Bool-cases (is_blank a || p == 0)) [ inl e ↦ inl e | inr e ↦ pr e ]

  -- The preferred endpoint, or the round.
  choose :
      (a : Text) (p i r : ℕ) (o : Option Endpoint) (m : HealthMap)
      → i < 2 ^ 64
      → All (Calm view) m
      → (is_blank a || p == 0 ≡ false → Preferred clock view ports a p o)
      → (is_blank a || p == 0 ≡ true → o ≡ none)
      → (e : Endpoint) × (m' : HealthMap) × (j : ℕ) × (◌≡◌ {A = Endpoint × RegistrarNode}
          (elim o [ some u ↦ (u, node view m i r) | none ↦ select_round clock (node view m i r) ])
          (e, node view m' j r))
        × Choice view a p i e j
        × All (Calm view) m'
  choose a p i r none m hi c pr b =
      let (m', q, c') = select_round-Calm clock view ports m i r full hi c in
      (
        get_or view (i % length view) no_endpoint,
        m',
        (i + 1) % 2 ^ 64,
        q,
        inr (unchosen a p pr, refl, refl),
        c',
      )
  choose a p i r (some u) m hi c pr b = elim (Bool-cases (is_blank a || p == 0)) [
    | inl e ↦ absurd (cc (b e))
    | inr e ↦ (u, m, i, refl, inl (e, (pr e).1, (pr e).0, refl), c)
  ]

  -- The attempt at the preferred endpoint, made only where there is one
  attempt :
      (a : Text) (p i r : ℕ) (m : HealthMap)
      → p < 2 ^ 16
      → All (Calm view) m
      → (o : Option Endpoint) × (m' : HealthMap) × (◌≡◌ {A = Option Endpoint × RegistrarNode}
          (if is_blank a || p == 0
            then (none, node view m i r)
            else try_preferred clock a p (node view m i r))
          (o, node view m' i r))
        × (is_blank a || p == 0 ≡ false → Preferred clock view ports a p o)
        × (is_blank a || p == 0 ≡ true → o ≡ none)
        × All (Calm view) m'
  attempt a p i r m hp c = elim (Bool-cases (is_blank a || p == 0)) [
    | inl b ↦ (none, m, rw b, (λ f. absurd (cc (b, f))), (λ f. refl), c)
    | inr b ↦
        let (o, m', q, pr, c') = try_preferred-Calm clock view ports a p m i r hp c in
        (o, m', rw b q, (λ f. pr), (λ f. absurd (cc (b, f))), c')
  ]

  select_step :
      (c : Config) (a : Text) (p i r j : ℕ) (m m₁ m₂ : HealthMap) (o : Option Endpoint)
      (e : Endpoint)
      → prune (clock r) m ≡ m
      → ◌≡◌ {A = Option Endpoint × RegistrarNode}
          (if is_blank a || p == 0
            then (none, node view m i (r + 1))
            else try_preferred clock a p (node view m i (r + 1)))
          (o, node view m₁ i (r + 1))
      → ◌≡◌ {A = Endpoint × RegistrarNode}
          (elim o [
            | some u ↦ (u, node view m₁ i (r + 1))
            | none ↦ select_round clock (node view m₁ i (r + 1))
          ])
          (e, node view m₂ j (r + 1))
      → select_gateway_endpoint clock c a p (node view m i r) ≡ (e, node view m₂ j (r + 1))
  unfolding select_gateway_endpoint
  select_step c a p i r j m m₁ m₂ o e hp ha hc =
      let try : HealthMap → Option Endpoint × RegistrarNode = λ x.
        (if is_blank a || p == 0
          then (none, node view x i (r + 1))
          else try_preferred clock a p (node view x i (r + 1))) in
      let go_on : Option Endpoint × RegistrarNode → Endpoint × RegistrarNode =
        λ out. elim out.0 [ some u ↦ (u, out.1) | none ↦ select_round clock out.1 ] in
      some_view view _ _ full ∙ ap (λ x. go_on (try x)) hp ∙ ap go_on ha ∙ hc

  pub select-Choice :
      (c : Config) (a : Text) (p i r : ℕ) (m : HealthMap)
      → p < 2 ^ 16
      → i < 2 ^ 64
      → All (Calm view) m
      → (e : Endpoint) × (m' : HealthMap) × (j : ℕ) × (select_gateway_endpoint clock c a p
            (node view m i r)
          ≡ (e, node view m' j (r + 1)))
        × Choice view a p i e j
        × All (Calm view) m'
  select-Choice c a p i r m hp hi calm =
      let (o, m₁, q₁, pr, b, c₁) = attempt a p i (r + 1) m hp calm in
      let (e, m₂, j, q₂, ch, c₂) = choose a p i (r + 1) o m₁ hi c₁ pr b in
      (
        e,
        m₂,
        j,
        select_step c a p i r j m m₁ m₂ o e (prune-Calm view (clock r) m calm) q₁ q₂,
        ch,
        c₂,
      )

  report_step :
      (c : Config) (a : Text) (p : ℕ) (s s₁ s₂ s₃ : RegistrarNode) (e : Endpoint)
      → select_gateway_endpoint clock c a p s ≡ (e, s₁)
      → (if missed a p e then report_gateway_failure clock a p s₁ else s₁) ≡ s₂
      → report_gateway_success e.address e.port s₂ ≡ s₃
      → choose_chat_server clock c a p s ≡ (e, s₃)
  unfolding choose_chat_server
  report_step c a p s s₁ s₂ s₃ e hs hm hr =
      let report : Endpoint × RegistrarNode → Endpoint × RegistrarNode = λ out. (
        out.0,
        report_gateway_success out.0.address out.0.port
            (if missed a p out.0 then report_gateway_failure clock a p out.1 else out.1),
      ) in
      ap report hs
      ∙ ap (λ x. (e, report_gateway_success e.address e.port x)) hm
      ∙ ap (λ x. (e, x)) hr

  miss :
      (a : Text) (p i j r : ℕ) (e : Endpoint) (m : HealthMap)
      → p < 2 ^ 16
      → Choice view a p i e j
      → All (Calm view) m
      → (m' : HealthMap) × ((if missed a p e
            then report_gateway_failure clock a p (node view m j r)
            else node view m j r)
          ≡ node view m' j r)
        × All (Calm view) m'
  miss a p i j r e m hp ch calm = elim (Bool-cases (missed a p e)) [
    | inl b ↦
        let (m', q, c') =
          report_failure-Calm clock view ports a p m j r hp (missed-unknown view a p i j e ch b)
            calm in
        (m', rw b q, c')
    | inr b ↦ (m, rw b, calm)
  ]

  -- A request of any preferred endpoint with a 16-bit port, on a registrar with a view of one
  -- endpoint at least and 16-bit ports in which no gateway was ever blacklisted, is answered with
  -- the preferred endpoint where the view has it, and else with the next in turn, and again no
  -- gateway is blacklisted afterwards.
  pub choose_chat_server-Choice :
      (c : Config) (a : Text) (p i r : ℕ) (m : HealthMap)
      → p < 2 ^ 16
      → i < 2 ^ 64
      → All (Calm view) m
      → (e : Endpoint) × (m' : HealthMap) × (j r' : ℕ) × (choose_chat_server clock c a p
            (node view m i r)
          ≡ (e, node view m' j r'))
        × Choice view a p i e j
        × All (Calm view) m'
  choose_chat_server-Choice c a p i r m hp hi calm =
      let (e, m₁, j, q, ch, c₁) = select-Choice c a p i r m hp hi calm in
      let (m₂, q₂, c₂) = miss a p i j (r + 1) e m₁ hp ch c₁ in
      let (m₃, q₃, c₃) =
        report_success-Calm clock view ports e.address e.port m₂ j (r + 1)
          (chosen_port view a p i j e ports full hp ch) c₂ in
      (e, m₃, j, r + 1, report_step c a p _ _ _ _ e q q₂ q₃, ch, c₃)
