-- ===== src/Gateway/Ends.antt =====
-- Computations that come to an end, and the look-ups of the handlers.
pub mod Handlers
use stationapiv.Prelude.{
  ℕ, ◌≡◌, refl, Bool, true, false, List, [], ◌∷◌, Option, none, some, Text, if◌then◌else◌,
}
use stationapiv.Enums.ResultCode.{ChatResultCode}
use stationapiv.Exec.{chat_result, Result, ok, raised, fault, Exec, pure, raise}
use stationapiv.Exec.Fuel.{Run, lift, resume, ◌>>=◌, ◌>>◌, for_each}
use stationapiv.Storage.{Env}
use stationapiv.AvatarService.{Key}
use stationapiv.Gateway.{GatewayState, look_up}
use stationapiv.Gateway.Handlers.{src_avatar, dest_avatar, found_or, lookup_room, room_at}

abbrev pub Ends : {A : Type 0} → Run GatewayState A → Type 0
Ends {A = A} m = (g : GatewayState) → (r : Result A × GatewayState) × (m g ≡ some r)

module _ {A : Type 0} where
  pub lift-Ends : (m : Exec GatewayState A) → Ends (lift m)
  lift-Ends m g = (m g, refl)

  pub if-Ends : (b : Bool) (m n : Run GatewayState A) → Ends m → Ends n → Ends (if b then m else n)
  if-Ends true m n h k = h
  if-Ends false m n h k = k

module _ {A B : Type 0} where
  resume-Ends :
      (r : Result A × GatewayState) (f : A → Run GatewayState B)
      → ((a : A) → Ends (f a))
      → (q : Result B × GatewayState) × (resume (some r) f ≡ some q)
  unfolding resume
  resume-Ends (ok a, g) f k = k a g
  resume-Ends (raised x, g) f k = ((raised x, g), refl)
  resume-Ends (fault, g) f k = ((fault, g), refl)

  pub bind-Ends :
      (m : Run GatewayState A) (f : A → Run GatewayState B)
      → Ends m
      → ((a : A) → Ends (f a))
      → Ends (m >>= f)
  bind-Ends m f h k g = let o = h g in rw o.1 (resume-Ends o.0 f k)

module _ {A : Type 0} where
  pub for_each-Ends :
      (f : A → Run GatewayState (Unit {0})) (xs : List A)
      → ((a : A) → Ends (f a))
      → Ends (for_each f xs)
  unfolding for_each
  for_each-Ends f [] h = lift-Ends (pure tt)
  for_each-Ends f (x ∷ xs) h =
      bind-Ends (f x) (λ _. for_each f xs) (h x) (λ _. for_each-Ends f xs h)

  pub found_or-Ends : (code : ChatResultCode) (o : Option A) → Ends (found_or code o)
  unfolding found_or
  found_or-Ends code none = lift-Ends (raise (chat_result code))
  found_or-Ends code (some a) = lift-Ends (pure a)

pub room_at-Ends : (address : Text) → Ends (room_at address)
unfolding room_at lookup_room
room_at-Ends address = search (lift-Ends, bind-Ends, found_or-Ends)

module _ (env : Env) (fuel : ℕ) (look_up-Ends : (k : Key) → Ends (look_up env fuel k)) where
  pub src_avatar-Ends : (id : ℕ) → Ends (src_avatar env fuel id)
  unfolding src_avatar
  src_avatar-Ends id = search (look_up-Ends, bind-Ends, found_or-Ends)

  pub dest_avatar-Ends : (name address : Text) → Ends (dest_avatar env fuel name address)
  unfolding dest_avatar
  dest_avatar-Ends name address = search (look_up-Ends, bind-Ends, found_or-Ends)
