-- ===== src/Room.antt =====
-- src/stationchat/ChatRoom.hpp and ChatRoom.cpp: one chat room and its lists of avatars.
pub mod Methods
pub mod Calls
pub mod Effect
pub mod Invariant
pub mod Refinement
pub mod Access
pub mod Faults
pub mod Stored
pub mod Audience
mod Examples
use stationapiv.Prelude.{ℕ, Bool, true, not, ◌++◌, List, [], ◌∷◌, Text, ◌==◌, any, bit_and, codes}

-- A `ChatAvatar*`: the place of the avatar in the order in which the gateway created them.
abbrev pub Ptr : Type 0
Ptr = ℕ

-- Integers are 32-bit patterns; `db_id` is the pattern of an `int32_t`.
pub record ChatRoom : Type 0 where
  -- whether `roomService_` points to the service, and is not null
  pub has_room_service : Bool
  pub creator_name : Text
  pub creator_address : Text
  pub room_name : Text
  pub room_topic : Text
  pub room_password : Text
  pub room_prefix : Text
  pub room_address : Text
  pub creator_id : ℕ
  pub room_attributes : ℕ
  pub max_room_size : ℕ
  pub room_id : ℕ
  pub create_time : ℕ
  pub node_level : ℕ
  pub room_message_id : ℕ
  pub db_id : ℕ
  pub avatars : List Ptr
  pub administrators : List Ptr
  pub moderators : List Ptr
  pub temp_moderators : List Ptr
  pub banned : List Ptr
  pub invited : List Ptr
  pub voice : List Ptr

-- `IS_SET`-style tests of `RoomAttributes`.
abbrev pub attribute_set : ℕ → ℕ → Bool
attribute_set attributes bit = not (bit_and attributes bit == 0)

unfoldable pub is_private : ChatRoom → Bool
is_private r = attribute_set r.room_attributes 1

unfoldable pub is_moderated : ChatRoom → Bool
is_moderated r = attribute_set r.room_attributes 2

unfoldable pub is_persistent : ChatRoom → Bool
is_persistent r = attribute_set r.room_attributes 4

unfoldable pub is_local_world : ChatRoom → Bool
is_local_world r = attribute_set r.room_attributes 16

unfoldable pub is_local_game : ChatRoom → Bool
is_local_game r = attribute_set r.room_attributes 32

-- The constructor; `name`, `address` and `id` are the creator's.
unfoldable pub chat_room : ℕ → Ptr → Text → Text → ℕ → Text → Text → Text → ℕ → ℕ → Text → ChatRoom
chat_room room_id creator name address id room_name room_topic room_password attributes max_size
      room_address =
    record {
      has_room_service = true;
      creator_name = name;
      creator_address = address;
      room_name = room_name;
      room_topic = room_topic;
      room_password = room_password;
      room_prefix = [];
      room_address = room_address ++ codes "+" ++ room_name;
      creator_id = id;
      room_attributes = attributes;
      max_room_size = max_size;
      room_id = room_id;
      create_time = 0;
      node_level = 0;
      room_message_id = 1;
      db_id = 0xffff_ffff;
      avatars = [];
      administrators = creator ∷ [];
      moderators = creator ∷ [];
      temp_moderators = [];
      banned = [];
      invited = [];
      voice = [];
    }

unfoldable pub is_creator : ChatRoom → ℕ → Bool
is_creator r id = id == r.creator_id

-- `GetAvatarId()` of the avatars that the room points to.
module _ (id_of : Ptr → ℕ) where
  abbrev pub has_id : ℕ → Ptr → Bool
  has_id id p = id_of p == id

  unfoldable pub is_in_room : ChatRoom → ℕ → Bool
  is_in_room r id = any (has_id id) r.avatars

  unfoldable pub is_moderator : ChatRoom → ℕ → Bool
  is_moderator r id = any (has_id id) r.moderators

  unfoldable pub is_administrator : ChatRoom → ℕ → Bool
  is_administrator r id = any (has_id id) r.administrators

  unfoldable pub is_banned : ChatRoom → ℕ → Bool
  is_banned r id = any (has_id id) r.banned

  unfoldable pub is_invited : ChatRoom → ℕ → Bool
  is_invited r id = any (has_id id) r.invited
