-- ===== src/Protocol/Requests/Rights.antt =====
-- The requests about moderators, bans, invitations and kicks: the records of
-- src/stationchat/protocol and their `read`.
use stationapiv.Prelude.{ℕ, Text}
use stationapiv.Wire.{Reader, read_u32, read_u16string, ◌>>=◌, pure}

pub record ReqAddModerator : Type 0 where
  pub track : ℕ
  pub src_avatar_id : ℕ
  pub dest_avatar_name : Text
  pub dest_avatar_address : Text
  pub dest_room_address : Text
  pub src_address : Text

unfoldable pub read_add_moderator : Reader ReqAddModerator
read_add_moderator = do
  track ← read_u32
  src_avatar_id ← read_u32
  dest_avatar_name ← read_u16string
  dest_avatar_address ← read_u16string
  dest_room_address ← read_u16string
  src_address ← read_u16string
  pure (record {
    track = track;
    src_avatar_id = src_avatar_id;
    dest_avatar_name = dest_avatar_name;
    dest_avatar_address = dest_avatar_address;
    dest_room_address = dest_room_address;
    src_address = src_address;
  })

pub record ReqRemoveModerator : Type 0 where
  pub track : ℕ
  pub src_avatar_id : ℕ
  pub dest_avatar_name : Text
  pub dest_avatar_address : Text
  pub dest_room_address : Text
  pub src_address : Text

unfoldable pub read_remove_moderator : Reader ReqRemoveModerator
read_remove_moderator = do
  track ← read_u32
  src_avatar_id ← read_u32
  dest_avatar_name ← read_u16string
  dest_avatar_address ← read_u16string
  dest_room_address ← read_u16string
  src_address ← read_u16string
  pure (record {
    track = track;
    src_avatar_id = src_avatar_id;
    dest_avatar_name = dest_avatar_name;
    dest_avatar_address = dest_avatar_address;
    dest_room_address = dest_room_address;
    src_address = src_address;
  })

pub record ReqAddBan : Type 0 where
  pub track : ℕ
  pub src_avatar_id : ℕ
  pub dest_avatar_name : Text
  pub dest_avatar_address : Text
  pub dest_room_address : Text
  pub src_address : Text

unfoldable pub read_add_ban : Reader ReqAddBan
read_add_ban = do
  track ← read_u32
  src_avatar_id ← read_u32
  dest_avatar_name ← read_u16string
  dest_avatar_address ← read_u16string
  dest_room_address ← read_u16string
  src_address ← read_u16string
  pure (record {
    track = track;
    src_avatar_id = src_avatar_id;
    dest_avatar_name = dest_avatar_name;
    dest_avatar_address = dest_avatar_address;
    dest_room_address = dest_room_address;
    src_address = src_address;
  })

pub record ReqRemoveBan : Type 0 where
  pub track : ℕ
  pub src_avatar_id : ℕ
  pub dest_avatar_name : Text
  pub dest_avatar_address : Text
  pub dest_room_address : Text
  pub src_address : Text

unfoldable pub read_remove_ban : Reader ReqRemoveBan
read_remove_ban = do
  track ← read_u32
  src_avatar_id ← read_u32
  dest_avatar_name ← read_u16string
  dest_avatar_address ← read_u16string
  dest_room_address ← read_u16string
  src_address ← read_u16string
  pure (record {
    track = track;
    src_avatar_id = src_avatar_id;
    dest_avatar_name = dest_avatar_name;
    dest_avatar_address = dest_avatar_address;
    dest_room_address = dest_room_address;
    src_address = src_address;
  })

pub record ReqAddInvite : Type 0 where
  pub track : ℕ
  pub src_avatar_id : ℕ
  pub dest_avatar_name : Text
  pub dest_avatar_address : Text
  pub dest_room_address : Text
  pub src_address : Text

unfoldable pub read_add_invite : Reader ReqAddInvite
read_add_invite = do
  track ← read_u32
  src_avatar_id ← read_u32
  dest_avatar_name ← read_u16string
  dest_avatar_address ← read_u16string
  dest_room_address ← read_u16string
  src_address ← read_u16string
  pure (record {
    track = track;
    src_avatar_id = src_avatar_id;
    dest_avatar_name = dest_avatar_name;
    dest_avatar_address = dest_avatar_address;
    dest_room_address = dest_room_address;
    src_address = src_address;
  })

pub record ReqRemoveInvite : Type 0 where
  pub track : ℕ
  pub src_avatar_id : ℕ
  pub dest_avatar_name : Text
  pub dest_avatar_address : Text
  pub dest_room_address : Text
  pub src_address : Text

unfoldable pub read_remove_invite : Reader ReqRemoveInvite
read_remove_invite = do
  track ← read_u32
  src_avatar_id ← read_u32
  dest_avatar_name ← read_u16string
  dest_avatar_address ← read_u16string
  dest_room_address ← read_u16string
  src_address ← read_u16string
  pure (record {
    track = track;
    src_avatar_id = src_avatar_id;
    dest_avatar_name = dest_avatar_name;
    dest_avatar_address = dest_avatar_address;
    dest_room_address = dest_room_address;
    src_address = src_address;
  })

pub record ReqKickAvatar : Type 0 where
  pub track : ℕ
  pub src_avatar_id : ℕ
  pub dest_avatar_name : Text
  pub dest_avatar_address : Text
  pub dest_room_address : Text
  pub src_address : Text

unfoldable pub read_kick_avatar : Reader ReqKickAvatar
read_kick_avatar = do
  track ← read_u32
  src_avatar_id ← read_u32
  dest_avatar_name ← read_u16string
  dest_avatar_address ← read_u16string
  dest_room_address ← read_u16string
  src_address ← read_u16string
  pure (record {
    track = track;
    src_avatar_id = src_avatar_id;
    dest_avatar_name = dest_avatar_name;
    dest_avatar_address = dest_avatar_address;
    dest_room_address = dest_room_address;
    src_address = src_address;
  })
