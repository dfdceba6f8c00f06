-- ===== src/Gateway/Outbox.antt =====
-- The updates of src/stationchat/GatewayClient.cpp, and `SendTo` of GatewayNode.hpp.
use stationapiv.Prelude.{
  ℕ, Bool, true, false, ◌&&◌, List, [], ◌∷◌, ◌++◌, none, some, Text, text_eq, any, if◌then◌else◌,
}
use stationapiv.Exec.{Result, ok, raised, fault, Exec, pure, modify, when, ◌>>=◌, ◌>>◌}
use stationapiv.Avatar.{Ptr, FriendContact, ChatAvatar, chat_avatar}
use stationapiv.Avatar.Contacts.{is_friend}
use stationapiv.Room.{ChatRoom}
use stationapiv.Room.Audience.{get_avatar_ids, get_connected_addresses, get_remote_addresses}
use stationapiv.Messages.{PersistentHeader}
use stationapiv.AvatarService.{Cell, avatar_at}
use stationapiv.Gateway.{
  Outgoing, m_instant_message, m_room_message, m_friend_login, m_friend_logout, m_enter_room,
  m_destroy_room, m_leave_room, m_persistent_message, m_kick_avatar, client_of, this_client,
  GatewayState, are_alive, contacts_alive, id_at, read_avatar, read_room,
}

-- A message to an address that no client has registered is dropped.
unfoldable pub send_to : Text → Outgoing → Exec GatewayState (Unit {0})
send_to address m = modify (λ g.
    if any (λ known. text_eq known address) g.client_addresses
    then record g { outbox = g.outbox ++ (client_of address, m) ∷ [] }
    else g)

unfoldable pub send : Outgoing → Exec GatewayState (Unit {0})
send m = modify (λ g. record g { outbox = g.outbox ++ (this_client, m) ∷ [] })

-- `for (const auto& address : addresses) { node_->SendTo(address, …); }`
unfoldable pub send_to_all : List Text → Outgoing → Exec GatewayState (Unit {0})
unfolding send_to
send_to_all [] m = pure tt
send_to_all (a ∷ others) m = send_to a m >> send_to_all others m

-- The avatar at an address that is alive
unfoldable pub avatar_or_default : List Cell → Ptr → ChatAvatar
unfolding avatar_at
avatar_or_default cells p = elim (avatar_at cells p) [
  | none ↦ chat_avatar [] [] 0 0 []
  | some a ↦ a
]

-- A read of the avatars in a room; a freed one is undefined behaviour.
abbrev read_members : {A : Type 0} → ℕ → ((Ptr → ChatAvatar) → ChatRoom → A) → Exec GatewayState A
read_members place f = do
  r ← read_room place
  λ g. (
    if are_alive g.avatar_cache r.avatars
        then ok (f (avatar_or_default g.avatar_cache) r)
        else fault,
    g,
  )

unfoldable pub connected_addresses : ℕ → Exec GatewayState (List Text)
unfolding read_room avatar_or_default are_alive
connected_addresses place = read_members place get_connected_addresses

unfoldable pub remote_addresses : ℕ → Exec GatewayState (List Text)
unfolding read_room avatar_or_default are_alive
remote_addresses place = read_members place get_remote_addresses

unfoldable pub send_friend_login_update : ChatAvatar → ChatAvatar → Exec GatewayState (Unit {0})
unfolding send_to
send_friend_login_update src dest =
    send_to src.address (m_friend_login dest dest.address src.avatar_id dest.status_message)

unfoldable pub add_if : Bool → ChatAvatar → Result (List ChatAvatar) → Result (List ChatAvatar)
add_if b a (ok found) = ok (if b then a ∷ found else found)
add_if b a (raised e) = raised e
add_if b a fault = fault

-- The avatars online that have a friend of the id; `IsFriend` reads the ids of their contacts.
unfoldable pub online_friends : List Cell → ℕ → List Ptr → Result (List ChatAvatar)
unfolding avatar_at add_if
online_friends cells id [] = ok []
online_friends cells id (p ∷ ps) =
    let rest = online_friends cells id ps in
    elim (avatar_at cells p) [
      | none ↦ fault
      | some a ↦
          if contacts_alive cells a then add_if (is_friend (id_at cells) a id) a rest else fault
    ]

unfoldable pub send_logins : ChatAvatar → List ChatAvatar → Exec GatewayState (Unit {0})
unfolding send_friend_login_update
send_logins avatar [] = pure tt
send_logins avatar (a ∷ others) = send_friend_login_update a avatar >> send_logins avatar others

-- The friends of the avatar that are online, to the client that logs it in
unfoldable pub send_friends_online : ChatAvatar → List FriendContact → Exec GatewayState (Unit {0})
unfolding send read_avatar
send_friends_online avatar [] = pure tt
send_friends_online avatar (c ∷ cs) = do
  f ← read_avatar c.frnd
  when f.is_online (send (m_friend_login f f.address avatar.avatar_id f.status_message))
  send_friends_online avatar cs

unfoldable pub send_friend_login_updates : Ptr → Exec GatewayState (Unit {0})
unfolding read_avatar online_friends send_logins send_friends_online
send_friend_login_updates p = do
  avatar ← read_avatar p
  friends ← (λ g. (online_friends g.avatar_cache avatar.avatar_id g.online_avatars, g))
  send_logins avatar friends
  send_friends_online avatar avatar.friend_list

unfoldable pub send_logouts : ChatAvatar → List ChatAvatar → Exec GatewayState (Unit {0})
unfolding send_to
send_logouts avatar [] = pure tt
send_logouts avatar (a ∷ others) =
    send_to a.address (m_friend_logout avatar avatar.address a.avatar_id)
    >> send_logouts avatar others

unfoldable pub send_friend_logout_updates : Ptr → Exec GatewayState (Unit {0})
unfolding read_avatar online_friends send_logouts
send_friend_logout_updates p = do
  avatar ← read_avatar p
  friends ← (λ g. (online_friends g.avatar_cache avatar.avatar_id g.online_avatars, g))
  send_logouts avatar friends

unfoldable pub send_enter_room_update : Ptr → ℕ → Exec GatewayState (Unit {0})
unfolding read_avatar read_room connected_addresses send_to_all
send_enter_room_update p place = do
  addresses ← connected_addresses place
  src ← read_avatar p
  r ← read_room place
  send_to_all addresses (m_enter_room src r.room_id)

unfoldable pub send_leave_room_update : List Text → ℕ → ℕ → Exec GatewayState (Unit {0})
unfolding send_to_all
send_leave_room_update addresses avatar_id room_id =
    send_to_all addresses (m_leave_room avatar_id room_id)

unfoldable pub send_destroy_room_update : Ptr → ℕ → List Text → Exec GatewayState (Unit {0})
unfolding read_avatar send_to_all
send_destroy_room_update p room_id targets = do
  src ← read_avatar p
  send_to_all targets (m_destroy_room src room_id)

unfoldable pub send_kick_avatar_update : List Text → Ptr → Ptr → ℕ → Exec GatewayState (Unit {0})
unfolding read_avatar read_room send_to_all
send_kick_avatar_update addresses p q place = do
  src ← read_avatar p
  dest ← read_avatar q
  r ← read_room place
  send_to_all addresses (m_kick_avatar src dest r.room_name r.room_address)

unfoldable pub send_instant_message_update : Ptr → Ptr → Text → Text → Exec GatewayState (Unit {0})
unfolding read_avatar send_to
send_instant_message_update p q message oob = do
  src ← read_avatar p
  dest ← read_avatar q
  send_to dest.address (m_instant_message src dest.avatar_id message oob)

abbrev hearing_alive : List Cell → List Ptr → Bool
hearing_alive cells [] = true
hearing_alive cells (p ∷ ps) =
    (elim (avatar_at cells p) [ none ↦ false | some a ↦ contacts_alive cells a ])
    && hearing_alive cells ps

-- `GetAvatarIds` asks each avatar in the room whether it ignores the source.
unfoldable pub hearers : ℕ → ℕ → Exec GatewayState (List ℕ)
unfolding read_room avatar_or_default avatar_at
hearers place src_id = do
  r ← read_room place
  λ g. (
    if hearing_alive g.avatar_cache r.avatars
        then ok (get_avatar_ids (avatar_or_default g.avatar_cache) src_id r)
        else fault,
    g,
  )

unfoldable pub send_room_message_update : Ptr → ℕ → ℕ → Text → Text → Exec GatewayState (Unit {0})
unfolding read_avatar read_room connected_addresses hearers send_to_all
send_room_message_update p place message_id message oob = do
  addresses ← connected_addresses place
  src ← read_avatar p
  r ← read_room place
  ids ← hearers place src.avatar_id
  send_to_all addresses (m_room_message src r.room_id ids message oob message_id)

unfoldable pub send_persistent_message_update :
    Ptr → PersistentHeader → Exec GatewayState (Unit {0})
unfolding read_avatar send_to
send_persistent_message_update p header = do
  dest ← read_avatar p
  send_to dest.address (m_persistent_message dest.avatar_id header)
