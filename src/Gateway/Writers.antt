-- ===== src/Gateway/Writers.antt =====
-- The writers of src/stationchat/Message.hpp, and those of src/stationchat/ChatAvatar.hpp,
-- src/stationchat/ChatRoom.hpp and src/stationchat/PersistentMessage.hpp that they and the responses
-- use.
use stationapiv.Prelude.{ℕ, ◌%◌, ◌^◌, ◌++◌, List, [], ◌∷◌, length, if◌then◌else◌}
use stationapiv.Wire.{write_uint, write_u16, write_u32, write_u16string}
use stationapiv.Enums.MessageType.{
  ChatMessageType, message_code, instantmessage, roommessage, friendlogin, friendlogout, enterroom,
  leaveroom, destroyroom, persistentmessage, kickavatar,
}
use stationapiv.Avatar.{Ptr, ChatAvatar, FriendContact, IgnoreContact}
use stationapiv.Room.{ChatRoom}
use stationapiv.Messages.{PersistentHeader, PersistentMessage}
use stationapiv.Gateway.{
  Outgoing, m_instant_message, m_room_message, m_friend_login, m_friend_logout, m_enter_room,
  m_destroy_room, m_leave_room, m_persistent_message, m_kick_avatar,
}

unfoldable pub write_avatar : ChatAvatar → List ℕ
unfolding write_uint write_u16string
write_avatar a =
    write_u32 a.avatar_id
    ++ write_u32 a.user_id
    ++ write_u16string a.name
    ++ write_u16string a.address
    ++ write_u32 a.attributes
    ++ write_u16string a.login_location
    ++ write_u16string a.server
    ++ write_u16string a.gateway
    ++ write_u32 a.server_id
    ++ write_u32 a.gateway_id

-- A 32-bit number of elements, then the elements
unfoldable pub write_all {ℓ} : {A : Type ℓ} → (A → List ℕ) → List A → List ℕ
write_all write [] = []
write_all write (x ∷ xs) = write x ++ write_all write xs

unfoldable pub write_list {ℓ} : {A : Type ℓ} → (A → List ℕ) → List A → List ℕ
unfolding write_uint write_all
write_list write xs = write_u32 (length xs % 2 ^ 32) ++ write_all write xs

module _ (avatar_of : Ptr → ChatAvatar) where
  unfoldable pub write_friend_contact : FriendContact → List ℕ
  unfolding write_uint write_u16string
  write_friend_contact c =
      let frnd = avatar_of c.frnd in
      write_u16string frnd.name
      ++ write_u16string frnd.address
      ++ write_u16string c.comment
      ++ write_u16 (if frnd.is_online then 1 else 0)

  unfoldable pub write_ignore_contact : IgnoreContact → List ℕ
  unfolding write_u16string
  write_ignore_contact c =
      let ignored = avatar_of c.ignored in
      write_u16string ignored.name ++ write_u16string ignored.address

  abbrev write_avatars : List Ptr → List ℕ
  write_avatars = write_list (λ p. write_avatar (avatar_of p))

  unfoldable pub write_room : ChatRoom → List ℕ
  unfolding write_uint write_u16string write_list write_avatar
  write_room r =
      write_u16string r.creator_name
      ++ write_u16string r.creator_address
      ++ write_u32 r.creator_id
      ++ write_u16string r.room_name
      ++ write_u16string r.room_topic
      ++ write_u16string r.room_prefix
      ++ write_u16string r.room_address
      ++ write_u16string r.room_password
      ++ write_u32 r.room_attributes
      ++ write_u32 r.max_room_size
      ++ write_u32 r.room_id
      ++ write_u32 r.create_time
      ++ write_u32 r.node_level
      ++ write_avatars r.avatars
      ++ write_avatars r.administrators
      ++ write_avatars r.moderators
      ++ write_avatars r.temp_moderators
      ++ write_avatars r.banned
      ++ write_avatars r.invited
      ++ write_avatars r.voice

-- The folder and the category are not written.
unfoldable pub write_header : PersistentHeader → List ℕ
unfolding write_uint write_u16string
write_header h =
    write_u32 h.message_id
    ++ write_u32 h.avatar_id
    ++ write_u16string h.from_name
    ++ write_u16string h.from_address
    ++ write_u16string h.subject
    ++ write_u32 h.sent_time
    ++ write_u32 h.status

unfoldable pub write_message : PersistentMessage → List ℕ
unfolding write_header write_u16string
write_message m = write_header m.header ++ write_u16string m.message ++ write_u16string m.oob

-- `type` and `track`, which is 0
abbrev pub message_head : ChatMessageType → List ℕ
message_head t = write_u16 (message_code t) ++ write_u32 0

unfoldable pub write_outgoing : Outgoing → List ℕ
unfolding write_uint write_u16string write_avatar write_list write_header message_code
write_outgoing (m_instant_message src dest_avatar_id message oob) =
    message_head instantmessage
    ++ write_avatar src
    ++ write_u32 dest_avatar_id
    ++ write_u16string message
    ++ write_u16string oob
write_outgoing (m_room_message src room_id dest_list message oob message_id) =
    message_head roommessage
    ++ write_avatar src
    ++ write_u32 room_id
    ++ write_list write_u32 dest_list
    ++ write_u16string message
    ++ write_u16string oob
    ++ write_u32 message_id
write_outgoing (m_friend_login avatar friend_address dest_avatar_id friend_status) =
    message_head friendlogin
    ++ write_avatar avatar
    ++ write_u16string friend_address
    ++ write_u32 dest_avatar_id
    ++ write_u16string friend_status
write_outgoing (m_friend_logout avatar friend_address dest_avatar_id) =
    message_head friendlogout
    ++ write_avatar avatar
    ++ write_u16string friend_address
    ++ write_u32 dest_avatar_id
write_outgoing (m_enter_room src room_id) =
    message_head enterroom ++ write_avatar src ++ write_u32 room_id
write_outgoing (m_leave_room avatar_id room_id) =
    message_head leaveroom ++ write_u32 avatar_id ++ write_u32 room_id
write_outgoing (m_destroy_room src room_id) =
    message_head destroyroom ++ write_avatar src ++ write_u32 room_id
write_outgoing (m_persistent_message dest_avatar_id header) =
    message_head persistentmessage ++ write_u32 dest_avatar_id ++ write_header header
write_outgoing (m_kick_avatar src dest room_name room_address) =
    message_head kickavatar
    ++ write_avatar src
    ++ write_avatar dest
    ++ write_u16string room_name
    ++ write_u16string room_address
