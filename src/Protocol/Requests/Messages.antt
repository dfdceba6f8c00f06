-- ===== src/Protocol/Requests/Messages.antt =====
-- The requests about messages and stored mail: the records of src/stationchat/protocol and their
-- `read`.
use stationapiv.Prelude.{ℕ, zero, suc, Bool, Text}
use stationapiv.Wire.{Reader, read_u16, read_u32, read_bool, read_u16string, ◌>>=◌, pure}

pub record ReqSendInstantMessage : Type 0 where
  pub track : ℕ
  pub src_avatar_id : ℕ
  pub dest_name : Text
  pub dest_address : Text
  pub message : Text
  pub oob : Text
  pub src_address : Text

unfoldable pub read_send_instant_message : Reader ReqSendInstantMessage
read_send_instant_message = do
  track ← read_u32
  src_avatar_id ← read_u32
  dest_name ← read_u16string
  dest_address ← read_u16string
  message ← read_u16string
  oob ← read_u16string
  src_address ← read_u16string
  pure (record {
    track = track;
    src_avatar_id = src_avatar_id;
    dest_name = dest_name;
    dest_address = dest_address;
    message = message;
    oob = oob;
    src_address = src_address;
  })

pub record ReqSendRoomMessage : Type 0 where
  pub track : ℕ
  pub src_avatar_id : ℕ
  pub dest_room_address : Text
  pub message : Text
  pub oob : Text
  pub src_address : Text

unfoldable pub read_send_room_message : Reader ReqSendRoomMessage
read_send_room_message = do
  track ← read_u32
  src_avatar_id ← read_u32
  dest_room_address ← read_u16string
  message ← read_u16string
  oob ← read_u16string
  src_address ← read_u16string
  pure (record {
    track = track;
    src_avatar_id = src_avatar_id;
    dest_room_address = dest_room_address;
    message = message;
    oob = oob;
    src_address = src_address;
  })

-- `avatarPresence` with the field that it selects: a nonzero value and the sender's id, or a name.
pub data Sender : Type 0 where
  from_avatar : ℕ → ℕ → Sender
  from_name : Text → Sender

pub record ReqSendPersistentMessage : Type 0 where
  pub track : ℕ
  pub sender : Sender
  pub dest_name : Text
  pub dest_address : Text
  pub subject : Text
  pub msg : Text
  pub oob : Text
  pub category : Text
  pub enforce_inbox_limit : Bool
  pub category_limit : ℕ

unfoldable pub read_sender : ℕ → Reader Sender
read_sender zero = do src_name ← read_u16string; pure (from_name src_name)
read_sender (suc n) = do src_avatar_id ← read_u32; pure (from_avatar (suc n) src_avatar_id)

unfoldable pub read_send_persistent_message : Reader ReqSendPersistentMessage
read_send_persistent_message = do
  track ← read_u32
  avatar_presence ← read_u16
  sender ← read_sender avatar_presence
  dest_name ← read_u16string
  dest_address ← read_u16string
  subject ← read_u16string
  msg ← read_u16string
  oob ← read_u16string
  category ← read_u16string
  enforce_inbox_limit ← read_bool
  category_limit ← read_u32
  pure (record {
    track = track;
    sender = sender;
    dest_name = dest_name;
    dest_address = dest_address;
    subject = subject;
    msg = msg;
    oob = oob;
    category = category;
    enforce_inbox_limit = enforce_inbox_limit;
    category_limit = category_limit;
  })

pub record ReqGetPersistentHeaders : Type 0 where
  pub track : ℕ
  pub avatar_id : ℕ
  pub category : Text

unfoldable pub read_get_persistent_headers : Reader ReqGetPersistentHeaders
read_get_persistent_headers = do
  track ← read_u32
  avatar_id ← read_u32
  category ← read_u16string
  pure (record { track = track; avatar_id = avatar_id; category = category })

pub record ReqGetPersistentMessage : Type 0 where
  pub track : ℕ
  pub src_avatar_id : ℕ
  pub message_id : ℕ

unfoldable pub read_get_persistent_message : Reader ReqGetPersistentMessage
read_get_persistent_message = do
  track ← read_u32
  src_avatar_id ← read_u32
  message_id ← read_u32
  pure (record { track = track; src_avatar_id = src_avatar_id; message_id = message_id })

pub record ReqUpdatePersistentMessage : Type 0 where
  pub track : ℕ
  pub src_avatar_id : ℕ
  pub message_id : ℕ
  pub status : ℕ

unfoldable pub read_update_persistent_message : Reader ReqUpdatePersistentMessage
read_update_persistent_message = do
  track ← read_u32
  src_avatar_id ← read_u32
  message_id ← read_u32
  status ← read_u32
  pure (record {
    track = track;
    src_avatar_id = src_avatar_id;
    message_id = message_id;
    status = status;
  })

pub record ReqUpdatePersistentMessages : Type 0 where
  pub track : ℕ
  pub src_avatar_id : ℕ
  pub current_status : ℕ
  pub new_status : ℕ
  pub category : Text

unfoldable pub read_update_persistent_messages : Reader ReqUpdatePersistentMessages
read_update_persistent_messages = do
  track ← read_u32
  src_avatar_id ← read_u32
  current_status ← read_u32
  new_status ← read_u32
  category ← read_u16string
  pure (record {
    track = track;
    src_avatar_id = src_avatar_id;
    current_status = current_status;
    new_status = new_status;
    category = category;
  })
