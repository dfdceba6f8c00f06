-- ===== src/Gateway/Ends/Handlers.antt =====
-- Each handler of src/stationchat/protocol/Protocol.cpp comes to an end where its look-ups do.
use stationapiv.Prelude.{ℕ, Option, none, some, Text}
use stationapiv.Exec.{undefined}
use stationapiv.Exec.Fuel.{Run}
use stationapiv.Storage.{Env}
use stationapiv.AvatarService.{Key}
use stationapiv.Gateway.{GatewayState, look_up}
use stationapiv.Avatar.{Ptr, ChatAvatar}
use stationapiv.Protocol.Requests.{
  Sender, from_name, from_avatar, ReqAddBan, ReqAddInvite, ReqAddModerator, ReqRemoveBan,
  ReqRemoveInvite, ReqRemoveModerator, ReqKickAvatar, ReqAddFriend, ReqAddIgnore, ReqRemoveFriend,
  ReqRemoveIgnore, ReqFriendStatus, ReqIgnoreStatus, ReqSendInstantMessage, ReqCreateRoom,
  ReqDestroyRoom, ReqEnterRoom, ReqLeaveRoom, ReqSendRoomMessage, ReqLogoutAvatar, ReqLoginAvatar,
  ReqFailoverReLoginAvatar, ReqGetAnyAvatar, ReqSetAvatarAttributes, ReqSendPersistentMessage,
}
use stationapiv.Gateway.Handlers.Rights.{
  with_room, handle_add_ban, handle_add_invite, handle_add_moderator, handle_remove_ban,
  handle_remove_invite, handle_remove_moderator, handle_kick_avatar,
}
use stationapiv.Gateway.Handlers.Contacts.{
  drop_ignored_or_null, handle_add_friend, handle_add_ignore, handle_remove_friend,
  handle_remove_ignore, handle_friend_status, handle_ignore_status, handle_send_instant_message,
}
use stationapiv.Gateway.Handlers.Rooms.{
  handle_create_room, handle_destroy_room, handle_enter_room, handle_leave_room,
  handle_send_room_message,
}
use stationapiv.Gateway.Handlers.Avatars.{
  leave_joined, leave_all, log_out, login_or_create, log_in, enter_joined, handle_logout_avatar,
  handle_login_avatar, handle_failover, handle_get_any_avatar, handle_set_avatar_attributes,
}
use stationapiv.Gateway.Handlers.Mail.{sender_of, handle_send_persistent_message}
use stationapiv.Gateway.Ends.{
  Ends, lift-Ends, if-Ends, bind-Ends, for_each-Ends, found_or-Ends, room_at-Ends, src_avatar-Ends,
  dest_avatar-Ends,
}

module _ (env : Env) (fuel : ℕ) (look_up-Ends : (k : Key) → Ends (look_up env fuel k)) where
  with_room-Ends :
      (id : ℕ) (name address room : Text)
      (rest : Ptr → Ptr → ℕ → ℕ → ℕ → Run GatewayState (Unit {0}))
      → ((p q : Ptr) (place src dest : ℕ) → Ends (rest p q place src dest))
      → Ends (with_room env fuel id name address room rest)
  unfolding with_room
  with_room-Ends id name address room rest h =
      search
        (
          h,
          src_avatar-Ends env fuel look_up-Ends,
          dest_avatar-Ends env fuel look_up-Ends,
          room_at-Ends,
          lift-Ends,
          bind-Ends,
        )
        depth 20

  drop_ignored_or_null-Ends : (p : Ptr) (o : Option Ptr) → Ends (drop_ignored_or_null env fuel p o)
  unfolding drop_ignored_or_null
  drop_ignored_or_null-Ends p none = search (lift-Ends, bind-Ends)
  drop_ignored_or_null-Ends p (some q) = search (lift-Ends)

  leave_joined-Ends : (p : Ptr) (place : ℕ) → Ends (leave_joined env fuel p place)
  unfolding leave_joined
  leave_joined-Ends p place = search (lift-Ends, bind-Ends) depth 12

  leave_all-Ends : (p : Ptr) → Ends (leave_all env fuel p)
  unfolding leave_all
  leave_all-Ends p = search (lift-Ends, bind-Ends, for_each-Ends, leave_joined-Ends) depth 12

  log_out-Ends : (o : Option Ptr) → Ends (log_out env fuel o)
  unfolding log_out
  log_out-Ends none = lift-Ends undefined
  log_out-Ends (some p) = search (leave_all-Ends, lift-Ends, bind-Ends) depth 12

  login_or_create-Ends :
      (name address : Text) (user_id attributes : ℕ) (location : Text) (o : Option Ptr)
      → Ends (login_or_create env fuel name address user_id attributes location o)
  unfolding login_or_create
  login_or_create-Ends name address user_id attributes location none = search (lift-Ends)
  login_or_create-Ends name address user_id attributes location (some p) = search (lift-Ends)

  log_in-Ends : (address : Text) (p : Ptr) → Ends (log_in env fuel address p)
  unfolding log_in
  log_in-Ends address p = search (if-Ends, lift-Ends, bind-Ends) depth 12

  enter_joined-Ends : (p : Ptr) (place : ℕ) → Ends (enter_joined env fuel p place)
  unfolding enter_joined
  enter_joined-Ends p place = search (lift-Ends)

  sender_of-Ends : (q : Ptr) (dest : ChatAvatar) (s : Sender) → Ends (sender_of env fuel q dest s)
  unfolding sender_of
  sender_of-Ends q dest (from_name name) = search (lift-Ends)
  sender_of-Ends q dest (from_avatar presence id) =
      search (src_avatar-Ends env fuel look_up-Ends, lift-Ends, bind-Ends) depth 12

  pub handle_add_ban-Ends : (r : ReqAddBan) → Ends (handle_add_ban env fuel r)
  unfolding handle_add_ban
  handle_add_ban-Ends r = search (with_room-Ends, lift-Ends)

  pub handle_add_invite-Ends : (r : ReqAddInvite) → Ends (handle_add_invite env fuel r)
  unfolding handle_add_invite
  handle_add_invite-Ends r = search (with_room-Ends, lift-Ends)

  pub handle_add_moderator-Ends : (r : ReqAddModerator) → Ends (handle_add_moderator env fuel r)
  unfolding handle_add_moderator
  handle_add_moderator-Ends r = search (with_room-Ends, lift-Ends)

  pub handle_remove_ban-Ends : (r : ReqRemoveBan) → Ends (handle_remove_ban env fuel r)
  unfolding handle_remove_ban
  handle_remove_ban-Ends r = search (with_room-Ends, lift-Ends)

  pub handle_remove_invite-Ends : (r : ReqRemoveInvite) → Ends (handle_remove_invite env fuel r)
  unfolding handle_remove_invite
  handle_remove_invite-Ends r = search (with_room-Ends, lift-Ends)

  pub handle_remove_moderator-Ends :
      (r : ReqRemoveModerator) → Ends (handle_remove_moderator env fuel r)
  unfolding handle_remove_moderator
  handle_remove_moderator-Ends r = search (with_room-Ends, lift-Ends)

  pub handle_kick_avatar-Ends : (r : ReqKickAvatar) → Ends (handle_kick_avatar env fuel r)
  unfolding handle_kick_avatar
  handle_kick_avatar-Ends r = search (with_room-Ends, lift-Ends, bind-Ends) depth 20

  pub handle_add_friend-Ends : (r : ReqAddFriend) → Ends (handle_add_friend env fuel r)
  unfolding handle_add_friend
  handle_add_friend-Ends r =
      search
        (
          src_avatar-Ends env fuel look_up-Ends,
          dest_avatar-Ends env fuel look_up-Ends,
          lift-Ends,
          bind-Ends,
        )
        depth 20

  pub handle_add_ignore-Ends : (r : ReqAddIgnore) → Ends (handle_add_ignore env fuel r)
  unfolding handle_add_ignore
  handle_add_ignore-Ends r =
      search
        (
          src_avatar-Ends env fuel look_up-Ends,
          dest_avatar-Ends env fuel look_up-Ends,
          lift-Ends,
          bind-Ends,
        )
        depth 20

  pub handle_remove_friend-Ends : (r : ReqRemoveFriend) → Ends (handle_remove_friend env fuel r)
  unfolding handle_remove_friend
  handle_remove_friend-Ends r =
      search
        (
          src_avatar-Ends env fuel look_up-Ends,
          dest_avatar-Ends env fuel look_up-Ends,
          lift-Ends,
          bind-Ends,
        )
        depth 20

  pub handle_send_instant_message-Ends :
      (r : ReqSendInstantMessage) → Ends (handle_send_instant_message env fuel r)
  unfolding handle_send_instant_message
  handle_send_instant_message-Ends r =
      search
        (
          src_avatar-Ends env fuel look_up-Ends,
          dest_avatar-Ends env fuel look_up-Ends,
          lift-Ends,
          bind-Ends,
        )
        depth 20

  pub handle_remove_ignore-Ends : (r : ReqRemoveIgnore) → Ends (handle_remove_ignore env fuel r)
  unfolding handle_remove_ignore
  handle_remove_ignore-Ends r =
      search
        (look_up-Ends, src_avatar-Ends env fuel look_up-Ends, drop_ignored_or_null-Ends, bind-Ends)
        depth 20

  pub handle_friend_status-Ends : (r : ReqFriendStatus) → Ends (handle_friend_status env fuel r)
  unfolding handle_friend_status
  handle_friend_status-Ends r =
      search (src_avatar-Ends env fuel look_up-Ends, lift-Ends, bind-Ends) depth 20

  pub handle_ignore_status-Ends : (r : ReqIgnoreStatus) → Ends (handle_ignore_status env fuel r)
  unfolding handle_ignore_status
  handle_ignore_status-Ends r =
      search (src_avatar-Ends env fuel look_up-Ends, lift-Ends, bind-Ends) depth 20

  pub handle_create_room-Ends : (r : ReqCreateRoom) → Ends (handle_create_room env fuel r)
  unfolding handle_create_room
  handle_create_room-Ends r = search (look_up-Ends, lift-Ends, bind-Ends) depth 20

  pub handle_destroy_room-Ends : (r : ReqDestroyRoom) → Ends (handle_destroy_room env fuel r)
  unfolding handle_destroy_room
  handle_destroy_room-Ends r =
      search (src_avatar-Ends env fuel look_up-Ends, room_at-Ends, lift-Ends, bind-Ends) depth 20

  pub handle_enter_room-Ends : (r : ReqEnterRoom) → Ends (handle_enter_room env fuel r)
  unfolding handle_enter_room
  handle_enter_room-Ends r =
      search (src_avatar-Ends env fuel look_up-Ends, room_at-Ends, lift-Ends, bind-Ends) depth 20

  pub handle_leave_room-Ends : (r : ReqLeaveRoom) → Ends (handle_leave_room env fuel r)
  unfolding handle_leave_room
  handle_leave_room-Ends r =
      search (src_avatar-Ends env fuel look_up-Ends, room_at-Ends, lift-Ends, bind-Ends) depth 20

  pub handle_send_room_message-Ends :
      (r : ReqSendRoomMessage) → Ends (handle_send_room_message env fuel r)
  unfolding handle_send_room_message
  handle_send_room_message-Ends r =
      search (src_avatar-Ends env fuel look_up-Ends, room_at-Ends, lift-Ends, bind-Ends) depth 20

  pub handle_logout_avatar-Ends : (r : ReqLogoutAvatar) → Ends (handle_logout_avatar env fuel r)
  unfolding handle_logout_avatar
  handle_logout_avatar-Ends r = search (look_up-Ends, log_out-Ends, bind-Ends) depth 20

  pub handle_login_avatar-Ends : (r : ReqLoginAvatar) → Ends (handle_login_avatar env fuel r)
  unfolding handle_login_avatar
  handle_login_avatar-Ends r =
      search (look_up-Ends, login_or_create-Ends, log_in-Ends, lift-Ends, bind-Ends) depth 20

  pub handle_failover-Ends : (r : ReqFailoverReLoginAvatar) → Ends (handle_failover env fuel r)
  unfolding handle_failover
  handle_failover-Ends r =
      search
        (
          look_up-Ends, login_or_create-Ends, log_in-Ends, enter_joined-Ends, for_each-Ends,
          lift-Ends, bind-Ends,
        )
        depth 20

  pub handle_get_any_avatar-Ends : (r : ReqGetAnyAvatar) → Ends (handle_get_any_avatar env fuel r)
  unfolding handle_get_any_avatar
  handle_get_any_avatar-Ends r = search (look_up-Ends, found_or-Ends, lift-Ends, bind-Ends) depth 20

  pub handle_set_avatar_attributes-Ends :
      (r : ReqSetAvatarAttributes) → Ends (handle_set_avatar_attributes env fuel r)
  unfolding handle_set_avatar_attributes
  handle_set_avatar_attributes-Ends r =
      search (src_avatar-Ends env fuel look_up-Ends, if-Ends, lift-Ends, bind-Ends) depth 20

  pub handle_send_persistent_message-Ends :
      (r : ReqSendPersistentMessage) → Ends (handle_send_persistent_message env fuel r)
  unfolding handle_send_persistent_message
  handle_send_persistent_message-Ends r =
      search (dest_avatar-Ends env fuel look_up-Ends, sender_of-Ends, lift-Ends, bind-Ends) depth 20
