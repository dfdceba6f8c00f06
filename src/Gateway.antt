-- ===== src/Gateway.antt =====
-- The gateway that src/stationchat/GatewayNode.cpp and GatewayClient.cpp put together: the avatars,
-- the rooms, the database, the clients that are registered, and the messages sent to them.
pub mod Outbox
pub mod Writers
pub mod Handlers
pub mod Incoming
pub mod Silence
pub mod Updates
pub mod Calls
pub mod Requests
pub mod Outcomes
pub mod Entry
pub mod Ends
pub mod Answers
mod Examples
use stationapiv.Prelude.{
  ℕ, Bool, true, false, ◌&&◌, List, [], ◌∷◌, ◌++◌, map, Option, none, some, Text, text_eq, any,
  get_elem?, set, if◌then◌else◌,
}
use stationapiv.Enums.ResultCode.{ChatResultCode, success}
use stationapiv.Exec.{Result, ok, raised, fault, Exec, pure, gets, modify, zoom, ◌>>=◌, ◌>>◌}
use stationapiv.Exec.Fuel.{Run}
use stationapiv.Storage.{Env, History}
use stationapiv.Avatar.{Ptr, FriendContact, IgnoreContact, ChatAvatar, chat_avatar}
use stationapiv.Avatar.Contacts.{AvatarState}
use stationapiv.Room.{ChatRoom}
use stationapiv.Room.Methods.{RoomState}
use stationapiv.Messages.{PersistentHeader, PersistentMessage}
use stationapiv.AvatarService.{Cell, AvatarService, Key, avatar_at, change_at}
use stationapiv.AvatarService.Load.{get_avatar}
use stationapiv.RoomService.{RoomService}

-- The messages of src/stationchat/Message.hpp that are sent. An avatar is written as it is then.
pub data Outgoing : Type 0 where
  m_instant_message : ChatAvatar → ℕ → Text → Text → Outgoing
  m_room_message : ChatAvatar → ℕ → List ℕ → Text → Text → ℕ → Outgoing
  m_friend_login : ChatAvatar → Text → ℕ → Text → Outgoing
  m_friend_logout : ChatAvatar → Text → ℕ → Outgoing
  m_enter_room m_destroy_room : ChatAvatar → ℕ → Outgoing
  m_leave_room : ℕ → ℕ → Outgoing
  m_persistent_message : ℕ → PersistentHeader → Outgoing
  m_kick_avatar : ChatAvatar → ChatAvatar → Text → Text → Outgoing

-- The client of an address, or the one whose request is handled.
pub data Recipient : Type 0 where
  client_of : Text → Recipient
  this_client : Recipient

-- The fields of the Res* records of src/stationchat/protocol that handlers write, apart from the
-- track. A number that no handler has written is none: its member is uninitialized.
pub record Response : Type 0 where
  pub result : ChatResultCode
  pub room_id : Option ℕ
  pub room : Option ℕ
  pub rooms : List ChatRoom
  pub avatar : Option Ptr
  pub is_online : Bool
  pub headers : List PersistentHeader
  pub message : Option PersistentMessage
  pub message_id : Option ℕ
  pub version : Option ℕ

abbrev pub fresh_response : Response
fresh_response = record {
  result = success;
  room_id = none;
  room = none;
  rooms = [];
  avatar = none;
  is_online = false;
  headers = [];
  message = none;
  message_id = none;
  version = none;
}

pub record GatewayState : Type 0 where
  pub avatar_cache : List Cell
  pub online_avatars : List Ptr
  pub next : Ptr
  pub rooms : List ChatRoom
  pub next_room_id : ℕ
  pub history : History
  pub client_addresses : List Text
  pub outbox : List (Recipient × Outgoing)
  pub response : Response

abbrev pub avatars_of : GatewayState → AvatarService
avatars_of g = record {
  avatar_cache = g.avatar_cache;
  online_avatars = g.online_avatars;
  next = g.next;
  history = g.history;
}

abbrev pub put_avatars : GatewayState → AvatarService → GatewayState
put_avatars g s = record g {
  avatar_cache = s.avatar_cache;
  online_avatars = s.online_avatars;
  next = s.next;
  history = s.history;
}

abbrev pub rooms_of : GatewayState → RoomService
rooms_of g = record { rooms = g.rooms; next_room_id = g.next_room_id; history = g.history }

abbrev pub put_rooms : GatewayState → RoomService → GatewayState
put_rooms g s = record g { rooms = s.rooms; next_room_id = s.next_room_id; history = s.history }

abbrev pub respond : (Response → Response) → Exec GatewayState (Unit {0})
respond f = modify (λ g. record g { response = f g.response })

-- `GetAvatarId()` of an avatar that is alive
unfoldable pub id_at : List Cell → Ptr → ℕ
unfolding avatar_at
id_at cells p = elim (avatar_at cells p) [ none ↦ 0 | some a ↦ a.avatar_id ]

unfoldable pub is_alive : List Cell → Ptr → Bool
unfolding avatar_at
is_alive cells p = elim (avatar_at cells p) [ none ↦ false | some a ↦ true ]

unfoldable pub are_alive : List Cell → List Ptr → Bool
unfolding is_alive
are_alive cells [] = true
are_alive cells (p ∷ ps) = is_alive cells p && are_alive cells ps

abbrev pub contacts_alive : List Cell → ChatAvatar → Bool
contacts_alive cells a =
    are_alive cells (map (λ (c : FriendContact). c.frnd) a.friend_list)
    && are_alive cells (map (λ (c : IgnoreContact). c.ignored) a.ignore_list)

abbrev pub room_alive : List Cell → ChatRoom → Bool
room_alive cells r =
    are_alive cells r.avatars
    && are_alive cells r.administrators
    && are_alive cells r.moderators
    && are_alive cells r.banned
    && are_alive cells r.invited

-- `GetAvatar`, with calls at most `fuel` deep
abbrev pub look_up : Env → ℕ → Key → Run GatewayState (Option Ptr)
look_up env fuel k g = elim (get_avatar env fuel k (avatars_of g)) [
  | none ↦ none
  | some r ↦ some (r.0, put_avatars g r.1)
]

abbrev pub on_avatars : {A : Type 0} → Exec AvatarService A → Exec GatewayState A
on_avatars = zoom avatars_of put_avatars

abbrev pub on_history : {A : Type 0} → Exec History A → Exec GatewayState A
on_history = zoom (λ g. g.history) (λ g h. record g { history = h })

abbrev pub on_rooms : {A : Type 0} → Exec RoomService A → Exec GatewayState A
on_rooms = zoom rooms_of put_rooms

-- `avatar->…` on the avatar as a whole
unfoldable pub read_avatar : Ptr → Exec GatewayState ChatAvatar
unfolding avatar_at
read_avatar p g = (elim (avatar_at g.avatar_cache p) [ none ↦ fault | some a ↦ ok a ], g)

-- A method of an avatar. It reads the ids of the avatars that the contacts point to; one of them
-- freed or null counts as undefined behaviour, also where the search ends before it.
unfoldable pub call_avatar :
    {A : Type 0} → Ptr → ((Ptr → ℕ) → Exec AvatarState A) → Exec GatewayState A
unfolding avatar_at are_alive id_at change_at
call_avatar p m g = elim (avatar_at g.avatar_cache p) [
  | none ↦ (fault, g)
  | some a ↦
      let r = m (id_at g.avatar_cache) (record { avatar = a; history = g.history }) in
      if contacts_alive g.avatar_cache a
      then (
        r.0,
        record g {
          avatar_cache = change_at p (λ _. r.1.avatar) g.avatar_cache;
          history = r.1.history;
        },
      )
      else (fault, g)
]

-- A method of the room at a place, in the same way.
unfoldable pub call_room : {A : Type 0} → ℕ → ((Ptr → ℕ) → Exec RoomState A) → Exec GatewayState A
unfolding are_alive id_at
call_room place m g = elim (get_elem? g.rooms place) [
  | none ↦ (fault, g)
  | some room ↦
      let r = m (id_at g.avatar_cache) (record { room = room; history = g.history }) in
      if room_alive g.avatar_cache room
      then (r.0, record g { rooms = set g.rooms place r.1.room; history = r.1.history })
      else (fault, g)
]

unfoldable pub read_room : ℕ → Exec GatewayState ChatRoom
read_room place g = (elim (get_elem? g.rooms place) [ none ↦ fault | some r ↦ ok r ], g)
