-- ===== src/Gateway/Silence.antt =====
-- Which steps of a handler send nothing, and which throw nothing.
use stationapiv.Prelude.{
  ◌≡◌, refl, sym, ◌∙◌, ap, Bool, true, false, List, [], ◌∷◌, Option, none, some, arith,
}
use stationapiv.Exec.{Result, ok, raised, fault, Exec, continue, when, ◌>>=◌}
use stationapiv.Exec.Fuel.{Run, lift, resume, for_each}
use stationapiv.Gateway.{GatewayState}

abbrev pub is_raised {ℓ} : {A : Type ℓ} → Result A → Bool
is_raised (ok a) = false
is_raised (raised e) = true
is_raised fault = false

-- The step sends no message.
abbrev pub IsSilent : {A : Type 0} → Run GatewayState A → Type 0
IsSilent {A = A} m =
    (g : GatewayState) (r : Result A × GatewayState) → m g ≡ some r → r.1.outbox ≡ g.outbox

-- The step throws no exception.
abbrev pub IsMild : {A : Type 0} → Run GatewayState A → Type 0
IsMild {A = A} m =
    (g : GatewayState) (r : Result A × GatewayState) → m g ≡ some r → is_raised r.0 ≡ false

-- Where the step throws, it has sent no message.
abbrev pub IsQuiet : {A : Type 0} → Run GatewayState A → Type 0
IsQuiet {A = A} m =
    (g : GatewayState) (r : Result A × GatewayState)
    → m g ≡ some r
    → is_raised r.0 ≡ true
    → r.1.outbox ≡ g.outbox

pub IsSilent→IsQuiet : {A : Type 0} (m : Run GatewayState A) → IsSilent m → IsQuiet m
IsSilent→IsQuiet m h g r e x = h g r e

pub IsMild→IsQuiet : {A : Type 0} (m : Run GatewayState A) → IsMild m → IsQuiet m
IsMild→IsQuiet m h g r e x = absurd (ground (arith, h g r e, x))

module _ {A B : Type 0} where
  resume-IsSilent :
      (o : Option (Result A × GatewayState)) (f : A → Run GatewayState B) (g : GatewayState)
      (r : Result B × GatewayState)
      → ((x : Result A × GatewayState) → o ≡ some x → x.1.outbox ≡ g.outbox)
      → ((a : A) → IsSilent (f a))
      → resume o f ≡ some r
      → r.1.outbox ≡ g.outbox
  unfolding resume
  resume-IsSilent none f g r h k e = absurd (cc)
  resume-IsSilent (some (ok a, s)) f g r h k e = k a s r e ∙ h (ok a, s) refl
  resume-IsSilent (some (raised x, s)) f g r h k e =
      let same : (raised x, s) ≡ r = cc in ap (λ y. y.1.outbox) (sym same) ∙ h (raised x, s) refl
  resume-IsSilent (some (fault, s)) f g r h k e =
      let same : (fault, s) ≡ r = cc in ap (λ y. y.1.outbox) (sym same) ∙ h (fault, s) refl

  pub bind-IsSilent :
      (m : Run GatewayState A) (f : A → Run GatewayState B)
      → IsSilent m
      → ((a : A) → IsSilent (f a))
      → IsSilent (λ g. resume (m g) f)
  bind-IsSilent m f h k g r e = resume-IsSilent (m g) f g r (h g) k e

  resume-IsMild :
      (o : Option (Result A × GatewayState)) (f : A → Run GatewayState B)
      (r : Result B × GatewayState)
      → ((x : Result A × GatewayState) → o ≡ some x → is_raised x.0 ≡ false)
      → ((a : A) → IsMild (f a))
      → resume o f ≡ some r
      → is_raised r.0 ≡ false
  unfolding resume
  resume-IsMild none f r h k e = absurd (cc)
  resume-IsMild (some (ok a, s)) f r h k e = k a s r e
  resume-IsMild (some (raised x, s)) f r h k e = absurd (ground (arith, h (raised x, s) refl))
  resume-IsMild (some (fault, s)) f r h k e =
      let same : (fault, s) ≡ r = cc in ap (λ y. is_raised y.0) (sym same)

  pub bind-IsMild :
      (m : Run GatewayState A) (f : A → Run GatewayState B)
      → IsMild m
      → ((a : A) → IsMild (f a))
      → IsMild (λ g. resume (m g) f)
  bind-IsMild m f h k g r e = resume-IsMild (m g) f r (h g) k e

  resume-IsQuiet :
      (o : Option (Result A × GatewayState)) (f : A → Run GatewayState B) (g : GatewayState)
      (r : Result B × GatewayState)
      → ((x : Result A × GatewayState) → o ≡ some x → x.1.outbox ≡ g.outbox)
      → ((a : A) → IsQuiet (f a))
      → resume o f ≡ some r
      → is_raised r.0 ≡ true
      → r.1.outbox ≡ g.outbox
  unfolding resume
  resume-IsQuiet none f g r h k e x = absurd (cc)
  resume-IsQuiet (some (ok a, s)) f g r h k e x = k a s r e x ∙ h (ok a, s) refl
  resume-IsQuiet (some (raised y, s)) f g r h k e x =
      let same : (raised y, s) ≡ r = cc in ap (λ y. y.1.outbox) (sym same) ∙ h (raised y, s) refl
  resume-IsQuiet (some (fault, s)) f g r h k e x =
      let same : (fault, s) ≡ r = cc in ap (λ y. y.1.outbox) (sym same) ∙ h (fault, s) refl

  -- A silent step and then a quiet one
  pub bind-IsQuiet :
      (m : Run GatewayState A) (f : A → Run GatewayState B)
      → IsSilent m
      → ((a : A) → IsQuiet (f a))
      → IsQuiet (λ g. resume (m g) f)
  bind-IsQuiet m f h k g r e x = resume-IsQuiet (m g) f g r (h g) k e x

  resume-IsMild-IsQuiet :
      (o : Option (Result A × GatewayState)) (f : A → Run GatewayState B) (g : GatewayState)
      (r : Result B × GatewayState)
      → ((x : Result A × GatewayState) → o ≡ some x → is_raised x.0 ≡ true → x.1.outbox ≡ g.outbox)
      → ((a : A) → IsMild (f a))
      → resume o f ≡ some r
      → is_raised r.0 ≡ true
      → r.1.outbox ≡ g.outbox
  unfolding resume
  resume-IsMild-IsQuiet none f g r h k e x = absurd (cc)
  resume-IsMild-IsQuiet (some (ok a, s)) f g r h k e x = absurd (ground (arith, k a s r e, x))
  resume-IsMild-IsQuiet (some (raised y, s)) f g r h k e x =
      let same : (raised y, s) ≡ r = cc in
      ap (λ y. y.1.outbox) (sym same) ∙ h (raised y, s) refl refl
  resume-IsMild-IsQuiet (some (fault, s)) f g r h k e x =
      let same : (fault, s) ≡ r = cc in
      absurd (let bad : false ≡ true = ap (λ y. is_raised y.0) same ∙ x in cc)

  -- A quiet step and then a mild one
  pub bind_IsMild-IsQuiet :
      (m : Run GatewayState A) (f : A → Run GatewayState B)
      → IsQuiet m
      → ((a : A) → IsMild (f a))
      → IsQuiet (λ g. resume (m g) f)
  bind_IsMild-IsQuiet m f h k g r e x = resume-IsMild-IsQuiet (m g) f g r (h g) k e x

pub for_each-IsMild :
    {A : Type 0} (f : A → Run GatewayState (Unit {0})) (xs : List A)
    → ((a : A) → IsMild (f a))
    → IsMild (for_each f xs)
unfolding for_each
for_each-IsMild f [] h =
    λ g r e. let same : (ok tt, g) ≡ r = cc in ap (λ y. is_raised y.0) (sym same)
for_each-IsMild f (x ∷ xs) h =
    bind-IsMild (f x) (λ _. for_each f xs) (h x) (λ _. for_each-IsMild f xs h)

-- Steps without calls of their own
module _ {A : Type 0} (m : Exec GatewayState A) where
  pub lift-IsSilent : ((g : GatewayState) → (m g).1.outbox ≡ g.outbox) → IsSilent (lift m)
  lift-IsSilent h g r e = let same : m g ≡ r = cc in ap (λ y. y.1.outbox) (sym same) ∙ h g

  pub lift-IsMild : ((g : GatewayState) → is_raised (m g).0 ≡ false) → IsMild (lift m)
  lift-IsMild h g r e = let same : m g ≡ r = cc in ap (λ y. is_raised y.0) (sym same) ∙ h g

-- A method that throws nothing, with its calls
module _ {S : Type 0} where
  abbrev pub NeverRaises : {A : Type 0} → Exec S A → Type 0
  NeverRaises m = (s : S) → is_raised (m s).0 ≡ false

  continue-NeverRaises :
      {A B : Type 0} (r : Result A) (s : S) (f : A → Exec S B)
      → is_raised r ≡ false
      → ((a : A) → NeverRaises (f a))
      → is_raised (continue r f s).0 ≡ false
  continue-NeverRaises (ok a) s f h k = k a s
  continue-NeverRaises (raised e) s f h k = absurd (ground arith)
  continue-NeverRaises fault s f h k = refl

  pub bind-NeverRaises :
      {A B : Type 0} (m : Exec S A) (f : A → Exec S B)
      → NeverRaises m
      → ((a : A) → NeverRaises (f a))
      → NeverRaises (m >>= f)
  bind-NeverRaises m f h k s = continue-NeverRaises (m s).0 (m s).1 f (h s) k

  pub when-NeverRaises : (b : Bool) (m : Exec S (Unit {0})) → NeverRaises m → NeverRaises (when b m)
  when-NeverRaises true m h s = h s
  when-NeverRaises false m h s = refl
