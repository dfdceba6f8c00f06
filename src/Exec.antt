-- ===== src/Exec.antt =====
-- Methods that change an object and may throw: src/stationchat/ChatEnums.hpp's
-- `ChatResultException`, the `MariaDBException` of src/stationapi/MariaDB.hpp, and undefined
-- behaviour as an outcome.
pub mod Fuel
pub mod Keeps
use stationapiv.Prelude.{ℕ, Bool, true, false}
use stationapiv.Enums.ResultCode.{ChatResultCode}

pub data Exception : Type 0 where
  -- `ChatResultException`; its text only goes to the log
  chat_result : ChatResultCode → Exception
  -- `MariaDBException` with its code
  database : ℕ → Exception
  -- another `std::exception`: a `std::runtime_error`, or what `std::stoi` throws
  standard : Exception
  -- anything else that is thrown
  foreign : Exception

-- `fault` is undefined behaviour: a null pointer dereferenced, `erase(end())`.
pub data Result {ℓ} (A : Type ℓ) : Type ℓ where
  ok : A → Result A
  raised : Exception → Result A
  fault : Result A

-- What was written before a throw stays written, so the state comes back beside the exception too.
abbrev pub Exec {ℓ κ} : Type ℓ → Type κ → Type (ℓ ⊔ κ)
Exec S A = S → Result A × S

module _ {ℓ κ} {S : Type ℓ} {A : Type κ} where
  abbrev pub pure : A → Exec S A
  pure a s = (ok a, s)

  abbrev pub raise : Exception → Exec S A
  raise e s = (raised e, s)

  abbrev pub undefined : Exec S A
  undefined s = (fault, s)

  abbrev pub gets : (S → A) → Exec S A
  gets f s = (ok (f s), s)

abbrev pub modify {ℓ} : {S : Type ℓ} → (S → S) → Exec S (Unit {0})
modify f s = (ok tt, f s)

module _ {ℓ κ ν} {S : Type ℓ} {A : Type κ} {B : Type ν} where
  abbrev pub continue : Result A → (A → Exec S B) → Exec S B
  continue (ok a) f s = f a s
  continue (raised e) f s = (raised e, s)
  continue fault f s = (fault, s)

  infixl 10 ◌>>=◌ ◌>>◌
  abbrev pub ◌>>=◌ : Exec S A → (A → Exec S B) → Exec S B
  ◌>>=◌ m f s = continue (m s).0 f (m s).1

  abbrev pub ◌>>◌ : Exec S A → Exec S B → Exec S B
  m >> n = m >>= λ _. n

module _ {ℓ} {S : Type ℓ} where
  -- `if (!b) { throw ChatResultException{c}; }`
  abbrev pub guard : Bool → ChatResultCode → Exec S (Unit {0})
  guard true c s = (ok tt, s)
  guard false c s = (raised (chat_result c), s)

  abbrev pub when : Bool → Exec S (Unit {0}) → Exec S (Unit {0})
  when true m = m
  when false m = pure tt

-- A method of a part of the state, as a method of the whole.
abbrev pub zoom {ℓ κ ν} :
    {S : Type ℓ} {T : Type κ} {A : Type ν} → (S → T) → (S → T → S) → Exec T A → Exec S A
zoom view put m s = ((m (view s)).0, put s (m (view s)).1)
