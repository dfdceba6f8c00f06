-- ===== src/Protocol/Requests/Contacts.antt =====
-- The requests about friends and ignored avatars: the records of src/stationchat/protocol and their
-- `read`.
use stationapiv.Prelude.{ℕ, Bool, Text}
use stationapiv.Wire.{Reader, read_u32, read_bool, read_u16string, ◌>>=◌, pure}

pub record ReqAddFriend : Type 0 where
  pub track : ℕ
  pub src_avatar_id : ℕ
  pub dest_name : Text
  pub dest_address : Text
  pub comment : Text
  pub confirm : Bool
  pub src_address : Text

unfoldable pub read_add_friend : Reader ReqAddFriend
read_add_friend = do
  track ← read_u32
  src_avatar_id ← read_u32
  dest_name ← read_u16string
  dest_address ← read_u16string
  comment ← read_u16string
  confirm ← read_bool
  src_address ← read_u16string
  pure (record {
    track = track;
    src_avatar_id = src_avatar_id;
    dest_name = dest_name;
    dest_address = dest_address;
    comment = comment;
    confirm = confirm;
    src_address = src_address;
  })

pub record ReqRemoveFriend : Type 0 where
  pub track : ℕ
  pub src_avatar_id : ℕ
  pub dest_name : Text
  pub dest_address : Text
  pub src_address : Text

unfoldable pub read_remove_friend : Reader ReqRemoveFriend
read_remove_friend = do
  track ← read_u32
  src_avatar_id ← read_u32
  dest_name ← read_u16string
  dest_address ← read_u16string
  src_address ← read_u16string
  pure (record {
    track = track;
    src_avatar_id = src_avatar_id;
    dest_name = dest_name;
    dest_address = dest_address;
    src_address = src_address;
  })

pub record ReqFriendStatus : Type 0 where
  pub track : ℕ
  pub src_avatar_id : ℕ
  pub src_address : Text

unfoldable pub read_friend_status : Reader ReqFriendStatus
read_friend_status = do
  track ← read_u32
  src_avatar_id ← read_u32
  src_address ← read_u16string
  pure (record { track = track; src_avatar_id = src_avatar_id; src_address = src_address })

pub record ReqAddIgnore : Type 0 where
  pub track : ℕ
  pub src_avatar_id : ℕ
  pub dest_name : Text
  pub dest_address : Text
  pub src_address : Text

unfoldable pub read_add_ignore : Reader ReqAddIgnore
read_add_ignore = do
  track ← read_u32
  src_avatar_id ← read_u32
  dest_name ← read_u16string
  dest_address ← read_u16string
  src_address ← read_u16string
  pure (record {
    track = track;
    src_avatar_id = src_avatar_id;
    dest_name = dest_name;
    dest_address = dest_address;
    src_address = src_address;
  })

pub record ReqRemoveIgnore : Type 0 where
  pub track : ℕ
  pub src_avatar_id : ℕ
  pub dest_name : Text
  pub dest_address : Text
  pub src_address : Text

unfoldable pub read_remove_ignore : Reader ReqRemoveIgnore
read_remove_ignore = do
  track ← read_u32
  src_avatar_id ← read_u32
  dest_name ← read_u16string
  dest_address ← read_u16string
  src_address ← read_u16string
  pure (record {
    track = track;
    src_avatar_id = src_avatar_id;
    dest_name = dest_name;
    dest_address = dest_address;
    src_address = src_address;
  })

pub record ReqIgnoreStatus : Type 0 where
  pub track : ℕ
  pub src_avatar_id : ℕ
  pub src_address : Text

unfoldable pub read_ignore_status : Reader ReqIgnoreStatus
read_ignore_status = do
  track ← read_u32
  src_avatar_id ← read_u32
  src_address ← read_u16string
  pure (record { track = track; src_avatar_id = src_avatar_id; src_address = src_address })
