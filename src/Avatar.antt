-- ===== src/Avatar.antt =====
-- src/stationchat/ChatAvatar.hpp: an avatar with its friends and the avatars it ignores.
pub mod Contacts
use stationapiv.Prelude.{ℕ, ◌/◌, ◌%◌, Bool, false, not, List, [], Text, ◌==◌}

-- A `ChatAvatar*`.
abbrev pub Ptr : Type 0
Ptr = ℕ

pub record FriendContact : Type 0 where
  pub frnd : Ptr
  pub comment : Text

pub record IgnoreContact : Type 0 where
  pub ignored : Ptr

pub record ChatAvatar : Type 0 where
  pub avatar_id : ℕ
  pub user_id : ℕ
  pub name : Text
  pub address : Text
  pub attributes : ℕ
  pub login_location : Text
  pub server : Text
  pub gateway : Text
  pub server_id : ℕ
  pub gateway_id : ℕ
  pub email : Text
  pub inbox_limit : ℕ
  pub status_message : Text
  pub is_online : Bool
  pub friend_list : List FriendContact
  pub ignore_list : List IgnoreContact

-- The constructor; the id stays 0 until the avatar is inserted into the database.
unfoldable pub chat_avatar : Text → Text → ℕ → ℕ → Text → ChatAvatar
chat_avatar name address user_id attributes login_location = record {
  avatar_id = 0;
  user_id = user_id;
  name = name;
  address = address;
  attributes = attributes;
  login_location = login_location;
  server = [];
  gateway = [];
  server_id = 0;
  gateway_id = 0;
  email = [];
  inbox_limit = 0;
  status_message = [];
  is_online = false;
  friend_list = [];
  ignore_list = [];
}

-- `(attributes_ & bit) != 0` for a bit of `AvatarAttribute`
abbrev attribute_set : ℕ → ChatAvatar → Bool
attribute_set bit a = not (a.attributes / bit % 2 == 0)

unfoldable pub is_invisible : ChatAvatar → Bool
is_invisible = attribute_set 1

unfoldable pub is_gm : ChatAvatar → Bool
is_gm = attribute_set 2

unfoldable pub is_super_gm : ChatAvatar → Bool
is_super_gm = attribute_set 4

unfoldable pub is_super_snoop : ChatAvatar → Bool
is_super_snoop = attribute_set 8
