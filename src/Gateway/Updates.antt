-- ===== src/Gateway/Updates.antt =====
-- The updates of src/stationchat/GatewayClient.cpp throw nothing, and the calls of avatars and
-- rooms send nothing.
use stationapiv.Prelude.{
  ℕ, ◌≡◌, refl, sym, ap, Bool, true, false, List, [], ◌∷◌, get_elem?, Option, none, some, Text,
  Option-cases, Bool-cases, if◌then◌else◌, inl, inr,
}
use stationapiv.Exec.{Result, ok, raised, fault, Exec, when}
use stationapiv.Exec.Fuel.{lift}
use stationapiv.Storage.{Env}
use stationapiv.Avatar.{Ptr, ChatAvatar, FriendContact}
use stationapiv.Avatar.Contacts.{AvatarState, is_friend}
use stationapiv.Room.Methods.{RoomState}
use stationapiv.AvatarService.{Cell, Key, AvatarService, avatar_at}
use stationapiv.AvatarService.Load.{get_avatar}
use stationapiv.Messages.{PersistentHeader}
use stationapiv.Gateway.{
  Outgoing, m_instant_message, m_persistent_message, m_friend_login, m_friend_logout, GatewayState,
  put_avatars, avatars_of, look_up, read_avatar, read_room, call_avatar, call_room, are_alive,
  id_at, contacts_alive, room_alive,
}
use stationapiv.Gateway.Outbox.{
  add_if, send_to, send, send_to_all, connected_addresses, send_friend_login_update, online_friends,
  send_logins, send_friends_online, send_friend_login_updates, send_logouts,
  send_friend_logout_updates, send_enter_room_update, send_leave_room_update,
  send_destroy_room_update, send_kick_avatar_update, send_instant_message_update, hearers,
  send_room_message_update, send_persistent_message_update,
}
use stationapiv.Gateway.Silence.{
  is_raised, IsSilent, lift-IsSilent, NeverRaises, bind-NeverRaises, when-NeverRaises,
}

module _ (env : Env) (fuel : ℕ) where
  looked_up :
      (g : GatewayState) (o : Option (Result (Option Ptr) × AvatarService))
      (r : Result (Option Ptr) × GatewayState)
      → elim o as (λ x. Option (Result (Option Ptr) × GatewayState)) [
        | none ↦ none
        | some x ↦ some (x.0, put_avatars g x.1)
      ]
        ≡ some r
      → r.1.outbox ≡ g.outbox
  looked_up g none r e = absurd (cc)
  looked_up g (some x) r e =
      let same : (x.0, put_avatars g x.1) ≡ r = cc in ap (λ y. y.1.outbox) (sym same)

  pub look_up-IsSilent : (k : Key) → IsSilent (look_up env fuel k)
  look_up-IsSilent k g r e = looked_up g (get_avatar env fuel k (avatars_of g)) r e

pub call_avatar-IsSilent :
    {A : Type 0} (p : Ptr) (m : (Ptr → ℕ) → Exec AvatarState A) → IsSilent (lift (call_avatar p m))
unfolding call_avatar
call_avatar-IsSilent p m = lift-IsSilent (call_avatar p m) (λ g.
    elim (Option-cases (avatar_at g.avatar_cache p)) [
      | inl n ↦ rw (n, call_avatar) refl
      | inr (a, e) ↦ elim (Bool-cases (contacts_alive g.avatar_cache a)) [
        | inl x ↦ rw (e, x, call_avatar) refl
        | inr x ↦ rw (e, x, call_avatar) refl
      ]
    ])

pub call_room-IsSilent :
    {A : Type 0} (place : ℕ) (m : (Ptr → ℕ) → Exec RoomState A)
    → IsSilent (lift (call_room place m))
unfolding call_room
call_room-IsSilent place m = lift-IsSilent (call_room place m) (λ g.
    elim (Option-cases (get_elem? g.rooms place)) [
      | inl n ↦ rw (n, call_room) refl
      | inr (r, e) ↦ elim (Bool-cases (room_alive g.avatar_cache r)) [
        | inl x ↦ rw (e, x, call_room) refl
        | inr x ↦ rw (e, x, call_room) refl
      ]
    ])

pub read_avatar-NeverRaises : (p : Ptr) → NeverRaises (read_avatar p)
unfolding read_avatar
read_avatar-NeverRaises p g = elim (Option-cases (avatar_at g.avatar_cache p)) [
  | inl n ↦ rw (n, is_raised) refl
  | inr (a, e) ↦ rw (e, is_raised) refl
]

pub read_room-NeverRaises : (place : ℕ) → NeverRaises (read_room place)
unfolding read_room
read_room-NeverRaises place g = elim (Option-cases (get_elem? g.rooms place)) [
  | inl n ↦ rw (n, is_raised) refl
  | inr (a, e) ↦ rw (e, is_raised) refl
]

pub send_to-NeverRaises : (address : Text) (m : Outgoing) → NeverRaises (send_to address m)
unfolding send_to
send_to-NeverRaises address m g = refl

pub send_to_all-NeverRaises :
    (addresses : List Text) (m : Outgoing) → NeverRaises (send_to_all addresses m)
unfolding send_to_all
send_to_all-NeverRaises [] m = λ g. refl
send_to_all-NeverRaises (a ∷ others) m =
    bind-NeverRaises (send_to a m) (λ _. send_to_all others m) (send_to-NeverRaises a m)
      (λ _. send_to_all-NeverRaises others m)

if_alive-NeverRaises :
    {A : Type 0} (b : Bool) (a : A) → is_raised (if b then ok a else fault) ≡ false
if_alive-NeverRaises true a = refl
if_alive-NeverRaises false a = refl

pub connected_addresses-NeverRaises : (place : ℕ) → NeverRaises (connected_addresses place)
unfolding connected_addresses
connected_addresses-NeverRaises place =
    bind-NeverRaises (read_room place) _ (read_room-NeverRaises place)
      (λ r g. if_alive-NeverRaises (are_alive g.avatar_cache r.avatars) _)

pub send_enter_room_update-NeverRaises :
    (p : Ptr) (place : ℕ) → NeverRaises (send_enter_room_update p place)
unfolding send_enter_room_update
send_enter_room_update-NeverRaises p place =
    bind-NeverRaises (connected_addresses place) _ (connected_addresses-NeverRaises place) (λ as1.
      bind-NeverRaises (read_avatar p) _ (read_avatar-NeverRaises p) (λ a.
        bind-NeverRaises (read_room place) _ (read_room-NeverRaises place)
          (λ r. send_to_all-NeverRaises as1 _)))

pub send_leave_room_update-NeverRaises :
    (addresses : List Text) (avatar_id room_id : ℕ)
    → NeverRaises (send_leave_room_update addresses avatar_id room_id)
unfolding send_leave_room_update
send_leave_room_update-NeverRaises addresses avatar_id room_id = send_to_all-NeverRaises addresses _

pub send_destroy_room_update-NeverRaises :
    (p : Ptr) (room_id : ℕ) (targets : List Text)
    → NeverRaises (send_destroy_room_update p room_id targets)
unfolding send_destroy_room_update
send_destroy_room_update-NeverRaises p room_id targets =
    bind-NeverRaises (read_avatar p) _ (read_avatar-NeverRaises p)
      (λ a. send_to_all-NeverRaises targets _)

pub send_kick_avatar_update-NeverRaises :
    (addresses : List Text) (p q : Ptr) (place : ℕ)
    → NeverRaises (send_kick_avatar_update addresses p q place)
unfolding send_kick_avatar_update
send_kick_avatar_update-NeverRaises addresses p q place =
    bind-NeverRaises (read_avatar p) _ (read_avatar-NeverRaises p) (λ a.
      bind-NeverRaises (read_avatar q) _ (read_avatar-NeverRaises q) (λ b.
        bind-NeverRaises (read_room place) _ (read_room-NeverRaises place)
          (λ r. send_to_all-NeverRaises addresses _)))

pub send_instant_message_update-NeverRaises :
    (p q : Ptr) (message oob : Text) → NeverRaises (send_instant_message_update p q message oob)
unfolding send_instant_message_update
send_instant_message_update-NeverRaises p q message oob =
    bind-NeverRaises (read_avatar p) _ (read_avatar-NeverRaises p) (λ a.
      bind-NeverRaises (read_avatar q) _ (read_avatar-NeverRaises q)
        (λ b. send_to-NeverRaises b.address (m_instant_message a b.avatar_id message oob)))

hearers-NeverRaises : (place src_id : ℕ) → NeverRaises (hearers place src_id)
unfolding hearers
hearers-NeverRaises place src_id =
    bind-NeverRaises (read_room place) _ (read_room-NeverRaises place)
      (λ r g. if_alive-NeverRaises _ _)

pub send_room_message_update-NeverRaises :
    (p : Ptr) (place message_id : ℕ) (message oob : Text)
    → NeverRaises (send_room_message_update p place message_id message oob)
unfolding send_room_message_update
send_room_message_update-NeverRaises p place message_id message oob =
    bind-NeverRaises (connected_addresses place) _ (connected_addresses-NeverRaises place) (λ to.
      bind-NeverRaises (read_avatar p) _ (read_avatar-NeverRaises p) (λ a.
        bind-NeverRaises (read_room place) _ (read_room-NeverRaises place) (λ r.
          bind-NeverRaises (hearers place a.avatar_id) _ (hearers-NeverRaises place a.avatar_id)
            (λ ids. send_to_all-NeverRaises to _))))

pub send_persistent_message_update-NeverRaises :
    (p : Ptr) (header : PersistentHeader) → NeverRaises (send_persistent_message_update p header)
unfolding send_persistent_message_update
send_persistent_message_update-NeverRaises p header =
    bind-NeverRaises (read_avatar p) _ (read_avatar-NeverRaises p)
      (λ a. send_to-NeverRaises a.address (m_persistent_message a.avatar_id header))

pub send_friend_login_update-NeverRaises :
    (src dest : ChatAvatar) → NeverRaises (send_friend_login_update src dest)
unfolding send_friend_login_update
send_friend_login_update-NeverRaises src dest =
    send_to-NeverRaises src.address
      (m_friend_login dest dest.address src.avatar_id dest.status_message)

add_if_raised :
    (b : Bool) (a : ChatAvatar) (o : Result (List ChatAvatar))
    → is_raised o ≡ false
    → is_raised (add_if b a o) ≡ false
unfolding add_if
add_if_raised b a (ok found) h = refl
add_if_raised b a (raised e) h = h
add_if_raised b a fault h = refl

online_friends_raised :
    (cells : List Cell) (id : ℕ) (ps : List Ptr) → is_raised (online_friends cells id ps) ≡ false
unfolding online_friends
online_friends_raised cells id [] = refl
online_friends_raised cells id (p ∷ ps) = elim (Option-cases (avatar_at cells p)) [
  | inl n ↦ rw (n, is_raised) refl
  | inr (a, e) ↦ elim (Bool-cases (contacts_alive cells a)) [
    | inl x ↦
        rw (e, x, is_raised)
          (add_if_raised (is_friend (id_at cells) a id) a (online_friends cells id ps)
            (online_friends_raised cells id ps))
    | inr x ↦ rw (e, x, is_raised) refl
  ]
]

send_logins-NeverRaises :
    (a : ChatAvatar) (others : List ChatAvatar) → NeverRaises (send_logins a others)
unfolding send_logins
send_logins-NeverRaises a [] s = refl
send_logins-NeverRaises a (b ∷ others) s =
    bind-NeverRaises (send_friend_login_update b a) (λ _. send_logins a others)
      (send_friend_login_update-NeverRaises b a) (λ _. send_logins-NeverRaises a others) s

send_logouts-NeverRaises :
    (a : ChatAvatar) (others : List ChatAvatar) → NeverRaises (send_logouts a others)
unfolding send_logouts
send_logouts-NeverRaises a [] s = refl
send_logouts-NeverRaises a (b ∷ others) s =
    bind-NeverRaises (send_to b.address (m_friend_logout a a.address b.avatar_id))
      (λ _. send_logouts a others)
      (send_to-NeverRaises b.address (m_friend_logout a a.address b.avatar_id))
      (λ _. send_logouts-NeverRaises a others) s

send-NeverRaises : (m : Outgoing) → NeverRaises (send m)
unfolding send
send-NeverRaises m s = refl

send_friends_online-NeverRaises :
    (a : ChatAvatar) (cs : List FriendContact) → NeverRaises (send_friends_online a cs)
unfolding send_friends_online
send_friends_online-NeverRaises a [] s = refl
send_friends_online-NeverRaises a (c ∷ cs) s =
    bind-NeverRaises (read_avatar c.frnd) _ (read_avatar-NeverRaises c.frnd)
      (λ f.
        bind-NeverRaises
          (when f.is_online (send (m_friend_login f f.address a.avatar_id f.status_message)))
          (λ _. send_friends_online a cs)
          (when-NeverRaises f.is_online _
            (send-NeverRaises (m_friend_login f f.address a.avatar_id f.status_message)))
          (λ _. send_friends_online-NeverRaises a cs))
      s

pub send_friend_login_updates-NeverRaises : (p : Ptr) → NeverRaises (send_friend_login_updates p)
unfolding send_friend_login_updates
send_friend_login_updates-NeverRaises p =
    bind-NeverRaises (read_avatar p) _ (read_avatar-NeverRaises p) (λ a.
      bind-NeverRaises (λ g. (online_friends g.avatar_cache a.avatar_id g.online_avatars, g)) _
        (λ g. online_friends_raised g.avatar_cache a.avatar_id g.online_avatars)
        (λ friends.
          bind-NeverRaises (send_logins a friends) (λ _. send_friends_online a a.friend_list)
            (send_logins-NeverRaises a friends)
            (λ _. send_friends_online-NeverRaises a a.friend_list)))

pub send_friend_logout_updates-NeverRaises : (p : Ptr) → NeverRaises (send_friend_logout_updates p)
unfolding send_friend_logout_updates
send_friend_logout_updates-NeverRaises p =
    bind-NeverRaises (read_avatar p) _ (read_avatar-NeverRaises p) (λ a.
      bind-NeverRaises (λ g. (online_friends g.avatar_cache a.avatar_id g.online_avatars, g)) _
        (λ g. online_friends_raised g.avatar_cache a.avatar_id g.online_avatars)
        (λ friends. send_logouts-NeverRaises a friends))
