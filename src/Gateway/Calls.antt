-- ===== src/Gateway/Calls.antt =====
-- The steps that the handlers of src/stationchat/protocol/Protocol.cpp share: which send nothing,
-- which throw nothing.
use stationapiv.Prelude.{
  ℕ, ◌≡◌, refl, Bool, true, false, not, List, [], ◌∷◌, ◌++◌, get_elem?, Option, none, some, Text,
  any, ◌==◌, if◌then◌else◌, ◌&&◌, Option-cases, Bool-cases, inl, inr,
}
use stationapiv.Enums.ResultCode.{ChatResultCode}
use stationapiv.Exec.{Result, ok, fault, Exec, pure, raise, modify, when, ◌>>=◌, ◌>>◌}
use stationapiv.Exec.Keeps.{bind-Keeps}
use stationapiv.Exec.Fuel.{lift}
use stationapiv.Storage.{Env}
use stationapiv.Avatar.{Ptr}
use stationapiv.Room.{has_id as room_has_id}
use stationapiv.Room.Methods.{leave_room}
use stationapiv.Presence.{
  Heap, Presence, has_id, load, store_at, is_online, scan_online, all_alive, erase_online,
  login_avatar, logout_avatar,
}
use stationapiv.AvatarService.{by_id, by_name, login, logout}
use stationapiv.Gateway.{
  GatewayState, Response, respond, look_up, on_avatars, read_avatar, read_room, call_room,
  room_alive,
}
use stationapiv.Gateway.Outbox.{connected_addresses, remote_addresses}
use stationapiv.Gateway.Silence.{
  is_raised, IsSilent, IsMild, bind-IsSilent, bind-IsMild, lift-IsSilent, lift-IsMild,
  for_each-IsMild, NeverRaises, bind-NeverRaises, when-NeverRaises,
}
use stationapiv.Gateway.Updates.{
  look_up-IsSilent, read_avatar-NeverRaises, read_room-NeverRaises, connected_addresses-NeverRaises,
  send_leave_room_update-NeverRaises,
}
use stationapiv.Gateway.Handlers.{found_or, lookup_room, src_avatar, dest_avatar, room_at}
use stationapiv.Gateway.Handlers.Avatars.{joined_rooms, leave_joined, leave_all}

pub found_or-IsSilent :
    {A : Type 0} (code : ChatResultCode) (o : Option A) → IsSilent (found_or code o)
unfolding found_or
found_or-IsSilent code none = lift-IsSilent (raise _) (λ g. refl)
found_or-IsSilent code (some a) = lift-IsSilent (pure a) (λ g. refl)

pub lookup_room-IsSilent : (address : Text) → IsSilent (lookup_room address)
unfolding lookup_room
lookup_room-IsSilent address = lift-IsSilent _ (λ g. refl)

pub room_at-IsSilent : (address : Text) → IsSilent (room_at address)
unfolding room_at
room_at-IsSilent address =
    bind-IsSilent (lookup_room address) (found_or _) (lookup_room-IsSilent address)
      (λ o. found_or-IsSilent _ o)

pub read_avatar-IsSilent : (p : Ptr) → IsSilent (lift (read_avatar p))
unfolding read_avatar
read_avatar-IsSilent p = lift-IsSilent (read_avatar p) (λ g. refl)

pub read_room-IsSilent : (place : ℕ) → IsSilent (lift (read_room place))
unfolding read_room
read_room-IsSilent place = lift-IsSilent (read_room place) (λ g. refl)

pub respond-IsSilent : (f : Response → Response) → IsSilent (lift (respond f))
respond-IsSilent f = lift-IsSilent (respond f) (λ g. refl)

pub respond-IsMild : (f : Response → Response) → IsMild (lift (respond f))
respond-IsMild f = lift-IsMild (respond f) (λ g. refl)

pub connected_addresses-IsSilent : (place : ℕ) → IsSilent (lift (connected_addresses place))
unfolding connected_addresses read_room
connected_addresses-IsSilent place = lift-IsSilent (connected_addresses place) (λ g.
    bind-Keeps (λ (s : GatewayState). s.outbox ≡ g.outbox) (read_room place) _ (λ s p. p)
      (λ r s p. p) g refl)

pub remote_addresses-IsSilent : (place : ℕ) → IsSilent (lift (remote_addresses place))
unfolding remote_addresses read_room
remote_addresses-IsSilent place = lift-IsSilent (remote_addresses place) (λ g.
    bind-Keeps (λ (s : GatewayState). s.outbox ≡ g.outbox) (read_room place) _ (λ s p. p)
      (λ r s p. p) g refl)

fault_or_ok : {A : Type 0} (b : Bool) (a : A) → is_raised (if b then fault else ok a) ≡ false
fault_or_ok true a = refl
fault_or_ok false a = refl

pub joined_rooms-NeverRaises : (id : ℕ) → NeverRaises (joined_rooms id)
unfolding joined_rooms
joined_rooms-NeverRaises id g = fault_or_ok _ _

scan_online_raised :
    (heap : Heap) (id : ℕ) (ps : List Ptr) → is_raised (scan_online heap id ps) ≡ false
unfolding scan_online
scan_online_raised heap id [] = refl
scan_online_raised heap id (p ∷ ps) = elim (Option-cases (heap p)) [
  | inl n ↦ rw (n, is_raised) refl
  | inr (a, e) ↦ elim (Bool-cases (a.avatar_id == id)) [
    | inl x ↦ rw (e, x, is_raised) refl
    | inr x ↦ rw (e, x, is_raised) (scan_online_raised heap id ps)
  ]
]

load-NeverRaises : (p : Ptr) → NeverRaises (load p)
unfolding load
load-NeverRaises p s = elim (Option-cases (s.heap p)) [
  | inl n ↦ rw (n, is_raised) refl
  | inr (a, e) ↦ rw (e, is_raised) refl
]

split_raised :
    {S A : Type 0} (b : Bool) (a : A) (s t : S)
    → is_raised (if◌then◌else◌ {A = Result A × S} b (ok a, s) (fault, t)).0 ≡ false
split_raised true a s t = refl
split_raised false a s t = refl

erase_online-NeverRaises : (id : ℕ) → NeverRaises (erase_online id)
unfolding erase_online
erase_online-NeverRaises id s =
    split_raised (all_alive s.heap s.online_avatars && any (has_id s.heap id) s.online_avatars) _ _
      s

abbrev list_unless : Ptr → Bool → Exec Presence (Unit {0})
list_unless p listed =
    when (not listed)
      (modify (λ (s : Presence). record s { online_avatars = s.online_avatars ++ p ∷ [] }))

login_avatar-NeverRaises : (p : Ptr) → NeverRaises (login_avatar p)
unfolding login_avatar is_online store_at
login_avatar-NeverRaises p =
    bind-NeverRaises (load p)
      (λ a. store_at p (record a { is_online = true }) >> (is_online a.avatar_id >>= list_unless p))
      (load-NeverRaises p)
      (λ a.
        bind-NeverRaises (store_at p (record a { is_online = true }))
          (λ _. is_online a.avatar_id >>= list_unless p) (λ s. refl)
          (λ x.
            bind-NeverRaises (is_online a.avatar_id) (list_unless p)
              (λ s. scan_online_raised s.heap a.avatar_id s.online_avatars)
              (λ listed. when-NeverRaises (not listed) _ (λ s. refl))))

logout_avatar-NeverRaises : (p : Ptr) → NeverRaises (logout_avatar p)
unfolding logout_avatar store_at
logout_avatar-NeverRaises p = bind-NeverRaises (load p) _ (load-NeverRaises p) (λ a.
    when-NeverRaises a.is_online _ (
      bind-NeverRaises (store_at p (record a { is_online = false })) (λ _. erase_online a.avatar_id)
        (λ s. refl) (λ x. erase_online-NeverRaises a.avatar_id)))

pub login-IsMild : (p : Ptr) → IsMild (lift (on_avatars (login p)))
login-IsMild p = lift-IsMild _ (λ g. login_avatar-NeverRaises p _)

pub logout-IsMild : (p : Ptr) → IsMild (lift (on_avatars (logout p)))
logout-IsMild p = lift-IsMild _ (λ g. logout_avatar-NeverRaises p _)

module _ (env : Env) (fuel : ℕ) where
  pub src_avatar-IsSilent : (id : ℕ) → IsSilent (src_avatar env fuel id)
  unfolding src_avatar
  src_avatar-IsSilent id =
      bind-IsSilent (look_up env fuel (by_id id)) (found_or _)
        (look_up-IsSilent env fuel (by_id id)) (λ o. found_or-IsSilent _ o)

  pub dest_avatar-IsSilent : (name address : Text) → IsSilent (dest_avatar env fuel name address)
  unfolding dest_avatar
  dest_avatar-IsSilent name address =
      bind-IsSilent (look_up env fuel (by_name name address)) (found_or _)
        (look_up-IsSilent env fuel (by_name name address)) (λ o. found_or-IsSilent _ o)

  leave_room-NeverRaises : (id_of : Ptr → ℕ) (p : Ptr) → NeverRaises (leave_room env id_of p)
  unfolding leave_room
  leave_room-NeverRaises id_of p s =
      when-NeverRaises (any (room_has_id id_of (id_of p)) s.room.avatars) _ (λ x. refl) s

  call_leave-NeverRaises :
      (p : Ptr) (place : ℕ) → NeverRaises (call_room place (λ id_of. leave_room env id_of p))
  unfolding call_room
  call_leave-NeverRaises p place g = elim (Option-cases (get_elem? g.rooms place)) [
    | inl n ↦ rw (n, is_raised) refl
    | inr (r, e) ↦ elim (Bool-cases (room_alive g.avatar_cache r)) [
      | inl x ↦ rw (e, x, is_raised) (leave_room-NeverRaises _ p _)
      | inr x ↦ rw (e, x, is_raised) refl
    ]
  ]

  leave_joined-IsMild : (p : Ptr) (place : ℕ) → IsMild (leave_joined env fuel p place)
  unfolding leave_joined
  leave_joined-IsMild p place =
      bind-IsMild (lift (connected_addresses place)) _
        (lift-IsMild _ (connected_addresses-NeverRaises place))
        (λ to.
          bind-IsMild (lift (call_room place (λ id_of. leave_room env id_of p))) _
            (lift-IsMild _ (call_leave-NeverRaises p place))
            (λ x.
              bind-IsMild (lift (read_avatar p)) _ (lift-IsMild _ (read_avatar-NeverRaises p)) (λ a.
                bind-IsMild (lift (read_room place)) _ (lift-IsMild _ (read_room-NeverRaises place))
                  (λ r.
                    lift-IsMild _ (send_leave_room_update-NeverRaises to a.avatar_id r.room_id)))))

  pub leave_all-IsMild : (p : Ptr) → IsMild (leave_all env fuel p)
  unfolding leave_all joined_rooms
  leave_all-IsMild p =
      bind-IsMild (lift (read_avatar p)) _ (lift-IsMild _ (read_avatar-NeverRaises p)) (λ a.
        bind-IsMild (lift (joined_rooms a.avatar_id)) _
          (lift-IsMild _ (joined_rooms-NeverRaises a.avatar_id))
          (λ places. for_each-IsMild (leave_joined env fuel p) places (leave_joined-IsMild p)))
