-- ===== src/Protocol/Dispatch/RoundTrip.antt =====
-- A client that writes a request by its layout is understood.
use stationapiv.Prelude.{ℕ, ◌≡◌, ◌∙◌, List, ◌∷◌, some, All}
use stationapiv.Enums.RequestType.{
  request_code, loginavatar, logoutavatar, createroom, destroyroom, sendinstantmessage,
  sendroommessage, addfriend, removefriend, friendstatus, addignore, removeignore, enterroom,
  leaveroom, addmoderator, removemoderator, addban, removeban, addinvite, removeinvite, kickavatar,
  getroom, getroomsummaries, sendpersistentmessage, getpersistentheaders, getpersistentmessage,
  updatepersistentmessage, updatepersistentmessages, ignorestatus, failover_reloginavatar,
  setapiversion, setavatarattributes, getanyavatar,
}
use stationapiv.Wire.RoundTrip.{bind-some}
use stationapiv.Protocol.Formats.{Field, u16, Fits, encode, read-u16}
use stationapiv.Protocol.Formats.Avatars.{
  login_avatar_fields, read-login_avatar, logout_avatar_fields, read-logout_avatar,
  failover_re_login_avatar_fields, read-failover_re_login_avatar, get_any_avatar_fields,
  read-get_any_avatar, set_avatar_attributes_fields, read-set_avatar_attributes,
  set_api_version_fields, read-set_api_version,
}
use stationapiv.Protocol.Formats.Contacts.{
  add_friend_fields, read-add_friend, remove_friend_fields, read-remove_friend,
  friend_status_fields, read-friend_status, add_ignore_fields, read-add_ignore,
  remove_ignore_fields, read-remove_ignore, ignore_status_fields, read-ignore_status,
}
use stationapiv.Protocol.Formats.Rooms.{
  create_room_fields, read-create_room, destroy_room_fields, read-destroy_room, enter_room_fields,
  read-enter_room, leave_room_fields, read-leave_room, get_room_fields, read-get_room,
  get_room_summaries_fields, read-get_room_summaries,
}
use stationapiv.Protocol.Formats.Rights.{
  add_moderator_fields, read-add_moderator, remove_moderator_fields, read-remove_moderator,
  add_ban_fields, read-add_ban, remove_ban_fields, read-remove_ban, add_invite_fields,
  read-add_invite, remove_invite_fields, read-remove_invite, kick_avatar_fields, read-kick_avatar,
}
use stationapiv.Protocol.Formats.Messages.{
  send_instant_message_fields, read-send_instant_message, send_room_message_fields,
  read-send_room_message, send_persistent_message_fields, read-send_persistent_message,
  get_persistent_headers_fields, read-get_persistent_headers, get_persistent_message_fields,
  read-get_persistent_message, update_persistent_message_fields, read-update_persistent_message,
  update_persistent_messages_fields, read-update_persistent_messages,
}
use stationapiv.Protocol.Dispatch.{
  Request, known, read_body, read_incoming, login_avatar, logout_avatar, create_room, destroy_room,
  send_instant_message, send_room_message, add_friend, remove_friend, friend_status, add_ignore,
  remove_ignore, enter_room, leave_room, add_moderator, remove_moderator, add_ban, remove_ban,
  add_invite, remove_invite, kick_avatar, get_room, get_room_summaries, send_persistent_message,
  get_persistent_headers, get_persistent_message, update_persistent_message,
  update_persistent_messages, ignore_status, failover_re_login_avatar, set_api_version,
  set_avatar_attributes, get_any_avatar,
}

-- The layout of a request: its type, then the fields of its body.
unfoldable pub request_fields : Request → List Field
unfolding request_code
request_fields (login_avatar r) = u16 (request_code loginavatar) ∷ login_avatar_fields r
request_fields (logout_avatar r) = u16 (request_code logoutavatar) ∷ logout_avatar_fields r
request_fields (create_room r) = u16 (request_code createroom) ∷ create_room_fields r
request_fields (destroy_room r) = u16 (request_code destroyroom) ∷ destroy_room_fields r
request_fields (send_instant_message r) =
    u16 (request_code sendinstantmessage) ∷ send_instant_message_fields r
request_fields (send_room_message r) =
    u16 (request_code sendroommessage) ∷ send_room_message_fields r
request_fields (add_friend r) = u16 (request_code addfriend) ∷ add_friend_fields r
request_fields (remove_friend r) = u16 (request_code removefriend) ∷ remove_friend_fields r
request_fields (friend_status r) = u16 (request_code friendstatus) ∷ friend_status_fields r
request_fields (add_ignore r) = u16 (request_code addignore) ∷ add_ignore_fields r
request_fields (remove_ignore r) = u16 (request_code removeignore) ∷ remove_ignore_fields r
request_fields (enter_room r) = u16 (request_code enterroom) ∷ enter_room_fields r
request_fields (leave_room r) = u16 (request_code leaveroom) ∷ leave_room_fields r
request_fields (add_moderator r) = u16 (request_code addmoderator) ∷ add_moderator_fields r
request_fields (remove_moderator r) = u16 (request_code removemoderator) ∷ remove_moderator_fields r
request_fields (add_ban r) = u16 (request_code addban) ∷ add_ban_fields r
request_fields (remove_ban r) = u16 (request_code removeban) ∷ remove_ban_fields r
request_fields (add_invite r) = u16 (request_code addinvite) ∷ add_invite_fields r
request_fields (remove_invite r) = u16 (request_code removeinvite) ∷ remove_invite_fields r
request_fields (kick_avatar r) = u16 (request_code kickavatar) ∷ kick_avatar_fields r
request_fields (get_room r) = u16 (request_code getroom) ∷ get_room_fields r
request_fields (get_room_summaries r) =
    u16 (request_code getroomsummaries) ∷ get_room_summaries_fields r
request_fields (send_persistent_message r) =
    u16 (request_code sendpersistentmessage) ∷ send_persistent_message_fields r
request_fields (get_persistent_headers r) =
    u16 (request_code getpersistentheaders) ∷ get_persistent_headers_fields r
request_fields (get_persistent_message r) =
    u16 (request_code getpersistentmessage) ∷ get_persistent_message_fields r
request_fields (update_persistent_message r) =
    u16 (request_code updatepersistentmessage) ∷ update_persistent_message_fields r
request_fields (update_persistent_messages r) =
    u16 (request_code updatepersistentmessages) ∷ update_persistent_messages_fields r
request_fields (ignore_status r) = u16 (request_code ignorestatus) ∷ ignore_status_fields r
request_fields (failover_re_login_avatar r) =
    u16 (request_code failover_reloginavatar) ∷ failover_re_login_avatar_fields r
request_fields (set_api_version r) = u16 (request_code setapiversion) ∷ set_api_version_fields r
request_fields (set_avatar_attributes r) =
    u16 (request_code setavatarattributes) ∷ set_avatar_attributes_fields r
request_fields (get_any_avatar r) = u16 (request_code getanyavatar) ∷ get_any_avatar_fields r

-- Every request whose fields fit their widths, written by its layout, is read back as it was by the
-- dispatch of the gateway, and the bytes that follow it are left.
pub read_incoming-request_fields :
    (q : Request) (rest : List ℕ)
    → All Fits (request_fields q)
    → read_incoming (encode (request_fields q) rest) ≡ some (known q, rest)
unfolding request_fields read_incoming read_body
read_incoming-request_fields (login_avatar r) rest h =
    bind-some _ _ (read-u16 _ _ h.0) ∙ bind-some _ _ (read-login_avatar r rest h.1)
read_incoming-request_fields (logout_avatar r) rest h =
    bind-some _ _ (read-u16 _ _ h.0) ∙ bind-some _ _ (read-logout_avatar r rest h.1)
read_incoming-request_fields (create_room r) rest h =
    bind-some _ _ (read-u16 _ _ h.0) ∙ bind-some _ _ (read-create_room r rest h.1)
read_incoming-request_fields (destroy_room r) rest h =
    bind-some _ _ (read-u16 _ _ h.0) ∙ bind-some _ _ (read-destroy_room r rest h.1)
read_incoming-request_fields (send_instant_message r) rest h =
    bind-some _ _ (read-u16 _ _ h.0) ∙ bind-some _ _ (read-send_instant_message r rest h.1)
read_incoming-request_fields (send_room_message r) rest h =
    bind-some _ _ (read-u16 _ _ h.0) ∙ bind-some _ _ (read-send_room_message r rest h.1)
read_incoming-request_fields (add_friend r) rest h =
    bind-some _ _ (read-u16 _ _ h.0) ∙ bind-some _ _ (read-add_friend r rest h.1)
read_incoming-request_fields (remove_friend r) rest h =
    bind-some _ _ (read-u16 _ _ h.0) ∙ bind-some _ _ (read-remove_friend r rest h.1)
read_incoming-request_fields (friend_status r) rest h =
    bind-some _ _ (read-u16 _ _ h.0) ∙ bind-some _ _ (read-friend_status r rest h.1)
read_incoming-request_fields (add_ignore r) rest h =
    bind-some _ _ (read-u16 _ _ h.0) ∙ bind-some _ _ (read-add_ignore r rest h.1)
read_incoming-request_fields (remove_ignore r) rest h =
    bind-some _ _ (read-u16 _ _ h.0) ∙ bind-some _ _ (read-remove_ignore r rest h.1)
read_incoming-request_fields (enter_room r) rest h =
    bind-some _ _ (read-u16 _ _ h.0) ∙ bind-some _ _ (read-enter_room r rest h.1)
read_incoming-request_fields (leave_room r) rest h =
    bind-some _ _ (read-u16 _ _ h.0) ∙ bind-some _ _ (read-leave_room r rest h.1)
read_incoming-request_fields (add_moderator r) rest h =
    bind-some _ _ (read-u16 _ _ h.0) ∙ bind-some _ _ (read-add_moderator r rest h.1)
read_incoming-request_fields (remove_moderator r) rest h =
    bind-some _ _ (read-u16 _ _ h.0) ∙ bind-some _ _ (read-remove_moderator r rest h.1)
read_incoming-request_fields (add_ban r) rest h =
    bind-some _ _ (read-u16 _ _ h.0) ∙ bind-some _ _ (read-add_ban r rest h.1)
read_incoming-request_fields (remove_ban r) rest h =
    bind-some _ _ (read-u16 _ _ h.0) ∙ bind-some _ _ (read-remove_ban r rest h.1)
read_incoming-request_fields (add_invite r) rest h =
    bind-some _ _ (read-u16 _ _ h.0) ∙ bind-some _ _ (read-add_invite r rest h.1)
read_incoming-request_fields (remove_invite r) rest h =
    bind-some _ _ (read-u16 _ _ h.0) ∙ bind-some _ _ (read-remove_invite r rest h.1)
read_incoming-request_fields (kick_avatar r) rest h =
    bind-some _ _ (read-u16 _ _ h.0) ∙ bind-some _ _ (read-kick_avatar r rest h.1)
read_incoming-request_fields (get_room r) rest h =
    bind-some _ _ (read-u16 _ _ h.0) ∙ bind-some _ _ (read-get_room r rest h.1)
read_incoming-request_fields (get_room_summaries r) rest h =
    bind-some _ _ (read-u16 _ _ h.0) ∙ bind-some _ _ (read-get_room_summaries r rest h.1)
read_incoming-request_fields (send_persistent_message r) rest h =
    bind-some _ _ (read-u16 _ _ h.0) ∙ bind-some _ _ (read-send_persistent_message r rest h.1)
read_incoming-request_fields (get_persistent_headers r) rest h =
    bind-some _ _ (read-u16 _ _ h.0) ∙ bind-some _ _ (read-get_persistent_headers r rest h.1)
read_incoming-request_fields (get_persistent_message r) rest h =
    bind-some _ _ (read-u16 _ _ h.0) ∙ bind-some _ _ (read-get_persistent_message r rest h.1)
read_incoming-request_fields (update_persistent_message r) rest h =
    bind-some _ _ (read-u16 _ _ h.0) ∙ bind-some _ _ (read-update_persistent_message r rest h.1)
read_incoming-request_fields (update_persistent_messages r) rest h =
    bind-some _ _ (read-u16 _ _ h.0) ∙ bind-some _ _ (read-update_persistent_messages r rest h.1)
read_incoming-request_fields (ignore_status r) rest h =
    bind-some _ _ (read-u16 _ _ h.0) ∙ bind-some _ _ (read-ignore_status r rest h.1)
read_incoming-request_fields (failover_re_login_avatar r) rest h =
    bind-some _ _ (read-u16 _ _ h.0) ∙ bind-some _ _ (read-failover_re_login_avatar r rest h.1)
read_incoming-request_fields (set_api_version r) rest h =
    bind-some _ _ (read-u16 _ _ h.0) ∙ bind-some _ _ (read-set_api_version r rest h.1)
read_incoming-request_fields (set_avatar_attributes r) rest h =
    bind-some _ _ (read-u16 _ _ h.0) ∙ bind-some _ _ (read-set_avatar_attributes r rest h.1)
read_incoming-request_fields (get_any_avatar r) rest h =
    bind-some _ _ (read-u16 _ _ h.0) ∙ bind-some _ _ (read-get_any_avatar r rest h.1)
