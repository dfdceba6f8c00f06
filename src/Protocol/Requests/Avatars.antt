-- ===== src/Protocol/Requests/Avatars.antt =====
-- The requests about avatars and the handshake: the records of src/stationchat/protocol and their
-- `read`.
use stationapiv.Prelude.{ℕ, Text}
use stationapiv.Wire.{Reader, read_u32, read_u16string, ◌>>=◌, pure}

pub record ReqLoginAvatar : Type 0 where
  pub track : ℕ
  pub user_id : ℕ
  pub name : Text
  pub address : Text
  pub login_location : Text
  pub login_priority : ℕ
  pub login_attributes : ℕ

unfoldable pub read_login_avatar : Reader ReqLoginAvatar
read_login_avatar = do
  track ← read_u32
  user_id ← read_u32
  name ← read_u16string
  address ← read_u16string
  login_location ← read_u16string
  login_priority ← read_u32
  login_attributes ← read_u32
  pure (record {
    track = track;
    user_id = user_id;
    name = name;
    address = address;
    login_location = login_location;
    login_priority = login_priority;
    login_attributes = login_attributes;
  })

pub record ReqLogoutAvatar : Type 0 where
  pub track : ℕ
  pub avatar_id : ℕ

unfoldable pub read_logout_avatar : Reader ReqLogoutAvatar
read_logout_avatar = do
  track ← read_u32
  avatar_id ← read_u32
  pure (record { track = track; avatar_id = avatar_id })

pub record ReqDestroyAvatar : Type 0 where
  pub track : ℕ
  pub avatar_id : ℕ
  pub address : Text

unfoldable pub read_destroy_avatar : Reader ReqDestroyAvatar
read_destroy_avatar = do
  track ← read_u32
  avatar_id ← read_u32
  address ← read_u16string
  pure (record { track = track; avatar_id = avatar_id; address = address })

pub record ReqFailoverReLoginAvatar : Type 0 where
  pub track : ℕ
  pub avatar_id : ℕ
  pub user_id : ℕ
  pub name : Text
  pub address : Text
  pub login_location : Text
  pub login_priority : ℕ
  pub attributes : ℕ

unfoldable pub read_failover_re_login_avatar : Reader ReqFailoverReLoginAvatar
read_failover_re_login_avatar = do
  track ← read_u32
  avatar_id ← read_u32
  user_id ← read_u32
  name ← read_u16string
  address ← read_u16string
  login_location ← read_u16string
  login_priority ← read_u32
  attributes ← read_u32
  pure (record {
    track = track;
    avatar_id = avatar_id;
    user_id = user_id;
    name = name;
    address = address;
    login_location = login_location;
    login_priority = login_priority;
    attributes = attributes;
  })

pub record ReqGetAnyAvatar : Type 0 where
  pub track : ℕ
  pub name : Text
  pub address : Text

unfoldable pub read_get_any_avatar : Reader ReqGetAnyAvatar
read_get_any_avatar = do
  track ← read_u32
  name ← read_u16string
  address ← read_u16string
  pure (record { track = track; name = name; address = address })

pub record ReqSetAvatarAttributes : Type 0 where
  pub track : ℕ
  pub avatar_id : ℕ
  pub avatar_attributes : ℕ
  pub persistent : ℕ
  pub src_address : Text

unfoldable pub read_set_avatar_attributes : Reader ReqSetAvatarAttributes
read_set_avatar_attributes = do
  track ← read_u32
  avatar_id ← read_u32
  avatar_attributes ← read_u32
  persistent ← read_u32
  src_address ← read_u16string
  pure (record {
    track = track;
    avatar_id = avatar_id;
    avatar_attributes = avatar_attributes;
    persistent = persistent;
    src_address = src_address;
  })

pub record ReqSetApiVersion : Type 0 where
  pub track : ℕ
  pub version : ℕ

unfoldable pub read_set_api_version : Reader ReqSetApiVersion
read_set_api_version = do
  track ← read_u32
  version ← read_u32
  pure (record { track = track; version = version })
