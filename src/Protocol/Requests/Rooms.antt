-- ===== src/Protocol/Requests/Rooms.antt =====
-- The requests about rooms: the records of src/stationchat/protocol and their `read`.
use stationapiv.Prelude.{ℕ, Bool, true, false, Option, none, some, Text}
use stationapiv.Wire.{Reader, read_u32, read_bool, read_u16string, ◌>>=◌, pure}

pub record ReqCreateRoom : Type 0 where
  pub track : ℕ
  pub creator_id : ℕ
  pub room_name : Text
  pub room_topic : Text
  pub room_password : Text
  pub room_attributes : ℕ
  pub room_max_size : ℕ
  pub room_address : Text
  pub src_address : Text

unfoldable pub read_create_room : Reader ReqCreateRoom
read_create_room = do
  track ← read_u32
  creator_id ← read_u32
  room_name ← read_u16string
  room_topic ← read_u16string
  room_password ← read_u16string
  room_attributes ← read_u32
  room_max_size ← read_u32
  room_address ← read_u16string
  src_address ← read_u16string
  pure (record {
    track = track;
    creator_id = creator_id;
    room_name = room_name;
    room_topic = room_topic;
    room_password = room_password;
    room_attributes = room_attributes;
    room_max_size = room_max_size;
    room_address = room_address;
    src_address = src_address;
  })

pub record ReqDestroyRoom : Type 0 where
  pub track : ℕ
  pub src_avatar_id : ℕ
  pub room_address : Text
  pub src_address : Text

unfoldable pub read_destroy_room : Reader ReqDestroyRoom
read_destroy_room = do
  track ← read_u32
  src_avatar_id ← read_u32
  room_address ← read_u16string
  src_address ← read_u16string
  pure (record {
    track = track;
    src_avatar_id = src_avatar_id;
    room_address = room_address;
    src_address = src_address;
  })

-- The parameters of a room that is to be made on entry; they are on the wire only then.
pub record PassiveCreate : Type 0 where
  pub param_room_topic : Text
  pub param_room_attributes : ℕ
  pub param_room_max_size : ℕ

-- `passive_create` is `passiveCreate` with the fields that depend on it.
pub record ReqEnterRoom : Type 0 where
  pub track : ℕ
  pub src_avatar_id : ℕ
  pub room_address : Text
  pub room_password : Text
  pub passive_create : Option PassiveCreate
  pub requesting_entry : Bool
  pub src_address : Text

unfoldable pub read_passive_create : Bool → Reader (Option PassiveCreate)
read_passive_create true = do
  param_room_topic ← read_u16string
  param_room_attributes ← read_u32
  param_room_max_size ← read_u32
  pure (
      some (record {
        param_room_topic = param_room_topic;
        param_room_attributes = param_room_attributes;
        param_room_max_size = param_room_max_size;
      }))
read_passive_create false = pure none

unfoldable pub read_enter_room : Reader ReqEnterRoom
read_enter_room = do
  track ← read_u32
  src_avatar_id ← read_u32
  room_address ← read_u16string
  room_password ← read_u16string
  is_passive ← read_bool
  passive_create ← read_passive_create is_passive
  requesting_entry ← read_bool
  src_address ← read_u16string
  pure (record {
    track = track;
    src_avatar_id = src_avatar_id;
    room_address = room_address;
    room_password = room_password;
    passive_create = passive_create;
    requesting_entry = requesting_entry;
    src_address = src_address;
  })

pub record ReqLeaveRoom : Type 0 where
  pub track : ℕ
  pub src_avatar_id : ℕ
  pub room_address : Text
  pub src_address : Text

unfoldable pub read_leave_room : Reader ReqLeaveRoom
read_leave_room = do
  track ← read_u32
  src_avatar_id ← read_u32
  room_address ← read_u16string
  src_address ← read_u16string
  pure (record {
    track = track;
    src_avatar_id = src_avatar_id;
    room_address = room_address;
    src_address = src_address;
  })

pub record ReqGetRoom : Type 0 where
  pub track : ℕ
  pub room_address : Text

unfoldable pub read_get_room : Reader ReqGetRoom
read_get_room = do
  track ← read_u32
  room_address ← read_u16string
  pure (record { track = track; room_address = room_address })

pub record ReqGetRoomSummaries : Type 0 where
  pub track : ℕ
  pub start_node_address : Text
  pub room_filter : Text

unfoldable pub read_get_room_summaries : Reader ReqGetRoomSummaries
read_get_room_summaries = do
  track ← read_u32
  start_node_address ← read_u16string
  room_filter ← read_u16string
  pure
      (record { track = track; start_node_address = start_node_address; room_filter = room_filter })
