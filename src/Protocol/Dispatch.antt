-- ===== src/Protocol/Dispatch.antt =====
-- `GatewayClient::OnIncoming` of src/stationchat/GatewayClient.cpp up to the handler: the request
-- type and the body that it selects. DESTROYAVATAR is among the types that it does not know.
pub mod RoundTrip
use stationapiv.Prelude.{ℕ, ◌==◌, if◌then◌else◌}
use stationapiv.Enums.RequestType.{
  request_code, loginavatar, logoutavatar, createroom, destroyroom, sendinstantmessage,
  sendroommessage, addfriend, removefriend, friendstatus, addignore, removeignore, enterroom,
  leaveroom, addmoderator, removemoderator, addban, removeban, addinvite, removeinvite, kickavatar,
  getroom, getroomsummaries, sendpersistentmessage, getpersistentheaders, getpersistentmessage,
  updatepersistentmessage, updatepersistentmessages, ignorestatus, failover_reloginavatar,
  setapiversion, setavatarattributes, getanyavatar,
}
use stationapiv.Wire.{Reader, read_u16, ◌>>=◌, pure}
use stationapiv.Protocol.Requests.{
  ReqLoginAvatar, read_login_avatar, ReqLogoutAvatar, read_logout_avatar, ReqCreateRoom,
  read_create_room, ReqDestroyRoom, read_destroy_room, ReqSendInstantMessage,
  read_send_instant_message, ReqSendRoomMessage, read_send_room_message, ReqAddFriend,
  read_add_friend, ReqRemoveFriend, read_remove_friend, ReqFriendStatus, read_friend_status,
  ReqAddIgnore, read_add_ignore, ReqRemoveIgnore, read_remove_ignore, ReqEnterRoom, read_enter_room,
  ReqLeaveRoom, read_leave_room, ReqAddModerator, read_add_moderator, ReqRemoveModerator,
  read_remove_moderator, ReqAddBan, read_add_ban, ReqRemoveBan, read_remove_ban, ReqAddInvite,
  read_add_invite, ReqRemoveInvite, read_remove_invite, ReqKickAvatar, read_kick_avatar, ReqGetRoom,
  read_get_room, ReqGetRoomSummaries, read_get_room_summaries, ReqSendPersistentMessage,
  read_send_persistent_message, ReqGetPersistentHeaders, read_get_persistent_headers,
  ReqGetPersistentMessage, read_get_persistent_message, ReqUpdatePersistentMessage,
  read_update_persistent_message, ReqUpdatePersistentMessages, read_update_persistent_messages,
  ReqIgnoreStatus, read_ignore_status, ReqFailoverReLoginAvatar, read_failover_re_login_avatar,
  ReqSetApiVersion, read_set_api_version, ReqSetAvatarAttributes, read_set_avatar_attributes,
  ReqGetAnyAvatar, read_get_any_avatar,
}

-- A request with its body.
pub data Request : Type 0 where
  login_avatar : ReqLoginAvatar → Request
  logout_avatar : ReqLogoutAvatar → Request
  create_room : ReqCreateRoom → Request
  destroy_room : ReqDestroyRoom → Request
  send_instant_message : ReqSendInstantMessage → Request
  send_room_message : ReqSendRoomMessage → Request
  add_friend : ReqAddFriend → Request
  remove_friend : ReqRemoveFriend → Request
  friend_status : ReqFriendStatus → Request
  add_ignore : ReqAddIgnore → Request
  remove_ignore : ReqRemoveIgnore → Request
  enter_room : ReqEnterRoom → Request
  leave_room : ReqLeaveRoom → Request
  add_moderator : ReqAddModerator → Request
  remove_moderator : ReqRemoveModerator → Request
  add_ban : ReqAddBan → Request
  remove_ban : ReqRemoveBan → Request
  add_invite : ReqAddInvite → Request
  remove_invite : ReqRemoveInvite → Request
  kick_avatar : ReqKickAvatar → Request
  get_room : ReqGetRoom → Request
  get_room_summaries : ReqGetRoomSummaries → Request
  send_persistent_message : ReqSendPersistentMessage → Request
  get_persistent_headers : ReqGetPersistentHeaders → Request
  get_persistent_message : ReqGetPersistentMessage → Request
  update_persistent_message : ReqUpdatePersistentMessage → Request
  update_persistent_messages : ReqUpdatePersistentMessages → Request
  ignore_status : ReqIgnoreStatus → Request
  failover_re_login_avatar : ReqFailoverReLoginAvatar → Request
  set_api_version : ReqSetApiVersion → Request
  set_avatar_attributes : ReqSetAvatarAttributes → Request
  get_any_avatar : ReqGetAnyAvatar → Request

pub data Incoming : Type 0 where
  known : Request → Incoming
  -- a type that is only logged
  unknown : ℕ → Incoming

unfoldable pub read_body : ℕ → Reader Incoming
unfolding request_code
read_body request_type =
    if request_type == request_code loginavatar
    then (do r ← read_login_avatar; pure (known (login_avatar r)))
    else if request_type == request_code logoutavatar
    then (do r ← read_logout_avatar; pure (known (logout_avatar r)))
    else if request_type == request_code createroom
    then (do r ← read_create_room; pure (known (create_room r)))
    else if request_type == request_code destroyroom
    then (do r ← read_destroy_room; pure (known (destroy_room r)))
    else if request_type == request_code sendinstantmessage
    then (do r ← read_send_instant_message; pure (known (send_instant_message r)))
    else if request_type == request_code sendroommessage
    then (do r ← read_send_room_message; pure (known (send_room_message r)))
    else if request_type == request_code addfriend
    then (do r ← read_add_friend; pure (known (add_friend r)))
    else if request_type == request_code removefriend
    then (do r ← read_remove_friend; pure (known (remove_friend r)))
    else if request_type == request_code friendstatus
    then (do r ← read_friend_status; pure (known (friend_status r)))
    else if request_type == request_code addignore
    then (do r ← read_add_ignore; pure (known (add_ignore r)))
    else if request_type == request_code removeignore
    then (do r ← read_remove_ignore; pure (known (remove_ignore r)))
    else if request_type == request_code enterroom
    then (do r ← read_enter_room; pure (known (enter_room r)))
    else if request_type == request_code leaveroom
    then (do r ← read_leave_room; pure (known (leave_room r)))
    else if request_type == request_code addmoderator
    then (do r ← read_add_moderator; pure (known (add_moderator r)))
    else if request_type == request_code removemoderator
    then (do r ← read_remove_moderator; pure (known (remove_moderator r)))
    else if request_type == request_code addban
    then (do r ← read_add_ban; pure (known (add_ban r)))
    else if request_type == request_code removeban
    then (do r ← read_remove_ban; pure (known (remove_ban r)))
    else if request_type == request_code addinvite
    then (do r ← read_add_invite; pure (known (add_invite r)))
    else if request_type == request_code removeinvite
    then (do r ← read_remove_invite; pure (known (remove_invite r)))
    else if request_type == request_code kickavatar
    then (do r ← read_kick_avatar; pure (known (kick_avatar r)))
    else if request_type == request_code getroom
    then (do r ← read_get_room; pure (known (get_room r)))
    else if request_type == request_code getroomsummaries
    then (do r ← read_get_room_summaries; pure (known (get_room_summaries r)))
    else if request_type == request_code sendpersistentmessage
    then (do r ← read_send_persistent_message; pure (known (send_persistent_message r)))
    else if request_type == request_code getpersistentheaders
    then (do r ← read_get_persistent_headers; pure (known (get_persistent_headers r)))
    else if request_type == request_code getpersistentmessage
    then (do r ← read_get_persistent_message; pure (known (get_persistent_message r)))
    else if request_type == request_code updatepersistentmessage
    then (do r ← read_update_persistent_message; pure (known (update_persistent_message r)))
    else if request_type == request_code updatepersistentmessages
    then (do r ← read_update_persistent_messages; pure (known (update_persistent_messages r)))
    else if request_type == request_code ignorestatus
    then (do r ← read_ignore_status; pure (known (ignore_status r)))
    else if request_type == request_code failover_reloginavatar
    then (do r ← read_failover_re_login_avatar; pure (known (failover_re_login_avatar r)))
    else if request_type == request_code setapiversion
    then (do r ← read_set_api_version; pure (known (set_api_version r)))
    else if request_type == request_code setavatarattributes
    then (do r ← read_set_avatar_attributes; pure (known (set_avatar_attributes r)))
    else if request_type == request_code getanyavatar
    then (do r ← read_get_any_avatar; pure (known (get_any_avatar r)))
    else pure (unknown request_type)

unfoldable pub read_incoming : Reader Incoming
read_incoming = do request_type ← read_u16; read_body request_type
