-- ===== src/Exec/Keeps.antt =====
-- Properties of the state that a method keeps, whatever it returns or throws.
use stationapiv.Prelude.{◌≡◌, refl, sym}
use mathlib.Core.Path.{subst}
use stationapiv.Exec.{Result, ok, raised, fault, Exec, continue, ◌>>=◌}

abbrev pub Keeps {ℓ κ ν} : {S : Type ℓ} {A : Type κ} → (S → Type ν) → Exec S A → Type (ℓ ⊔ ν)
Keeps {S = S} P m = (s : S) → P s → P (m s).1

module _ {ℓ κ ν ρ} {S : Type ℓ} {A : Type κ} {B : Type ν} (P : S → Type ρ) where
  continue-Keeps :
      (r : Result A) (s : S) (f : A → Exec S B)
      → P s
      → ((a : A) → Keeps P (f a))
      → P (continue r f s).1
  continue-Keeps (ok a) s f p k = k a s p
  continue-Keeps (raised e) s f p k = p
  continue-Keeps fault s f p k = p

  pub bind-Keeps :
      (m : Exec S A) (f : A → Exec S B) → Keeps P m → ((a : A) → Keeps P (f a)) → Keeps P (m >>= f)
  bind-Keeps m f h k s p = continue-Keeps (m s).0 (m s).1 f (h s p) k

module _ {ℓ κ ρ} {S : Type ℓ} {A : Type κ} (P : S → Type ρ) where
  -- A method that does not write
  pub reads-Keeps : (m : Exec S A) → ((s : S) → (m s).1 ≡ s) → Keeps P m
  reads-Keeps m h s p = subst P (sym (h s)) p

-- What a method returns, if it does.
abbrev pub Returns {ℓ κ ν} : {S : Type ℓ} {A : Type κ} → (A → Type ν) → Exec S A → Type (ℓ ⊔ κ ⊔ ν)
Returns {S = S} {A = A} Q m = (s : S) (a : A) → (m s).0 ≡ ok a → Q a

module _ {ℓ κ ν ρ} {S : Type ℓ} {A : Type κ} {B : Type ν} (Q : B → Type ρ) where
  continue-Returns :
      (r : Result A) (s : S) (f : A → Exec S B) (b : B)
      → ((a : A) → Returns Q (f a))
      → (continue r f s).0 ≡ ok b
      → Q b
  continue-Returns (ok a) s f b k e = k a s b e
  continue-Returns (raised x) s f b k e = absurd (cc)
  continue-Returns fault s f b k e = absurd (cc)

  pub bind-Returns :
      (m : Exec S A) (f : A → Exec S B) → ((a : A) → Returns Q (f a)) → Returns Q (m >>= f)
  bind-Returns m f k s b e = continue-Returns (m s).0 (m s).1 f b k e

module _ {ℓ κ ν ρ ι} {S : Type ℓ} {A : Type κ} {B : Type ν} (P : S → Type ρ) (Q : A → Type ι) where
  continue_Returns-Keeps :
      (r : Result A) (s : S) (f : A → Exec S B)
      → P s
      → ((a : A) → r ≡ ok a → Q a)
      → ((a : A) → Q a → Keeps P (f a))
      → P (continue r f s).1
  continue_Returns-Keeps (ok a) s f p q k = k a (q a refl) s p
  continue_Returns-Keeps (raised e) s f p q k = p
  continue_Returns-Keeps fault s f p q k = p

  pub bind_Returns-Keeps :
      (m : Exec S A) (f : A → Exec S B)
      → Keeps P m
      → Returns Q m
      → ((a : A) → Q a → Keeps P (f a))
      → Keeps P (m >>= f)
  bind_Returns-Keeps m f h q k s p =
      continue_Returns-Keeps (m s).0 (m s).1 f (h s p) (λ a e. q s a e) k
