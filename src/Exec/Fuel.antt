-- ===== src/Exec/Fuel.antt =====
-- Methods that call each other without a bound in the code, on fuel: `none` is fuel that ran out,
-- which is no outcome of the code.
use stationapiv.Prelude.{◌≡◌, refl, List, [], ◌∷◌, Option, none, some}
use stationapiv.Exec.{Result, ok, raised, fault, Exec, pure}

abbrev pub Run {ℓ κ} : Type ℓ → Type κ → Type (ℓ ⊔ κ)
Run S A = S → Option (Result A × S)

module _ {ℓ κ} {S : Type ℓ} {A : Type κ} where
  abbrev pub lift : Exec S A → Run S A
  lift m s = some (m s)

  abbrev pub exhausted : Run S A
  exhausted s = none

module _ {ℓ κ ν} {S : Type ℓ} {A : Type κ} {B : Type ν} where
  unfoldable pub resume : Option (Result A × S) → (A → Run S B) → Option (Result B × S)
  resume none f = none
  resume (some (ok a, s)) f = f a s
  resume (some (raised e, s)) f = some (raised e, s)
  resume (some (fault, s)) f = some (fault, s)

  infixl 10 ◌>>=◌ ◌>>◌
  abbrev pub ◌>>=◌ : Run S A → (A → Run S B) → Run S B
  m >>= f = λ s. resume (m s) f

  abbrev pub ◌>>◌ : Run S A → Run S B → Run S B
  m >> n = m >>= λ _. n

module _ {ℓ κ} {S : Type ℓ} {A : Type κ} where
  -- `while (mariadb_step(stmt) == MARIADB_ROW) { … }`
  unfoldable pub for_each : (A → Run S (Unit {0})) → List A → Run S (Unit {0})
  for_each f [] = lift (pure tt)
  for_each f (x ∷ xs) = f x >> for_each f xs

-- `m` has every outcome that `n` has.
abbrev pub IsRefined {ℓ κ} : {S : Type ℓ} {A : Type κ} → Run S A → Run S A → Type (ℓ ⊔ κ)
IsRefined {S = S} {A = A} n m = (s : S) (r : Result A × S) → n s ≡ some r → m s ≡ some r

module _ {ℓ κ ν} {S : Type ℓ} {A : Type κ} {B : Type ν} where
  pub resume-IsRefined :
      (o o' : Option (Result A × S)) (f f' : A → Run S B)
      → ((r : Result A × S) → o ≡ some r → o' ≡ some r)
      → ((a : A) → IsRefined (f a) (f' a))
      → (r : Result B × S) → resume o f ≡ some r
      → resume o' f' ≡ some r
  unfolding resume
  resume-IsRefined none o' f f' h k r e = cc
  resume-IsRefined (some (ok a, s)) o' f f' h k r e = rw (h (ok a, s) refl, resume) (k a s r e)
  resume-IsRefined (some (raised x, s)) o' f f' h k r e = rw (h (raised x, s) refl, resume) e
  resume-IsRefined (some (fault, s)) o' f f' h k r e = rw (h (fault, s) refl, resume) e

  pub bind-IsRefined :
      (m m' : Run S A) (f f' : A → Run S B)
      → IsRefined m m'
      → ((a : A) → IsRefined (f a) (f' a))
      → IsRefined (m >>= f) (m' >>= f')
  bind-IsRefined m m' f f' h k s r e = resume-IsRefined (m s) (m' s) f f' (h s) k r e

module _ {ℓ κ} {S : Type ℓ} {A : Type κ} where
  pub for_each-IsRefined :
      (f f' : A → Run S (Unit {0})) (xs : List A)
      → ((a : A) → IsRefined (f a) (f' a))
      → IsRefined (for_each f xs) (for_each f' xs)
  unfolding for_each
  for_each-IsRefined f f' [] h s r e = e
  for_each-IsRefined f f' (x ∷ xs) h s r e =
      bind-IsRefined (f x) (f' x) (λ _. for_each f xs) (λ _. for_each f' xs) (h x)
        (λ _. for_each-IsRefined f f' xs h) s r e

-- From every state that satisfies `P`, the fuel suffices, and the state at the end is related to
-- the one at the start.
abbrev pub Succeeds {ℓ κ ρ ν} :
    {S : Type ℓ} {A : Type κ} → (S → Type ρ) → (S → S → Type ν) → Run S A → Type (ℓ ⊔ κ ⊔ ρ ⊔ ν)
Succeeds {S = S} {A = A} P R m = (s : S) → P s → (r : Result A × S) × (m s ≡ some r) × R s r.1

module _ {ℓ κ ν ρ ι} {S : Type ℓ} {A : Type κ} {B : Type ν} (P : S → Type ρ) (R : S → S → Type ι)
    (trans : (s t u : S) → R s t → R t u → R s u) (kept : (s t : S) → R s t → P s → P t) where
  resume-Succeeds :
      (s : S) (r : Result A × S) (f : A → Run S B)
      → P s
      → R s r.1
      → ((a : A) → Succeeds P R (f a))
      → (q : Result B × S) × (resume (some r) f ≡ some q) × R s q.1
  unfolding resume
  resume-Succeeds s (ok a, t) f p r k =
      let rest = k a t (kept s t r p) in (rest.0, rest.1, trans s t rest.0.1 r rest.2)
  resume-Succeeds s (raised x, t) f p r k = ((raised x, t), refl, r)
  resume-Succeeds s (fault, t) f p r k = ((fault, t), refl, r)

  pub bind-Succeeds :
      (m : Run S A) (f : A → Run S B)
      → Succeeds P R m
      → ((a : A) → Succeeds P R (f a))
      → Succeeds P R (m >>= f)
  bind-Succeeds m f h k s p = let o = h s p in rw o.1 (resume-Succeeds s o.0 f p o.2 k)

-- An operation that needs no fuel.
module _ {ℓ κ ν ρ} {S : Type ℓ} {A : Type κ} where
  pub lift-Succeeds :
      (P : S → Type ρ) (R : S → S → Type ν) (m : Exec S A)
      → ((s : S) → R s (m s).1)
      → Succeeds P R (lift m)
  lift-Succeeds P R m h s p = (m s, refl, h s)

module _ {ℓ κ ρ ι} {S : Type ℓ} {A : Type κ} (P : S → Type ρ) (R : S → S → Type ι)
    (same : (s : S) → R s s) (trans : (s t u : S) → R s t → R t u → R s u)
    (kept : (s t : S) → R s t → P s → P t) where
  pub for_each-Succeeds :
      (f : A → Run S (Unit {0})) (xs : List A)
      → ((a : A) → Succeeds P R (f a))
      → Succeeds P R (for_each f xs)
  unfolding for_each
  for_each-Succeeds f [] h = lift-Succeeds P R (pure tt) same
  for_each-Succeeds f (x ∷ xs) h =
      bind-Succeeds P R trans kept (f x) (λ _. for_each f xs) (h x) (λ _. for_each-Succeeds f xs h)
