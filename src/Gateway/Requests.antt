-- ===== src/Gateway/Requests.antt =====
-- A handler of the gateway that ends in an exception has sent nothing, save a logout that fails to
-- write to the tables of the website.
pub mod Rights
pub mod Contacts
pub mod Rooms
pub mod Avatars
pub mod Mail
use stationapiv.Prelude.{Bool, false, ◌&&◌, ℕ, ◌≡◌, true, some}
use stationapiv.Exec.{Result}
use stationapiv.Storage.{Env}
use stationapiv.Protocol.Dispatch.{
  Request, login_avatar, logout_avatar, create_room, destroy_room, send_instant_message,
  send_room_message, add_friend, remove_friend, friend_status, add_ignore, remove_ignore,
  enter_room, leave_room, add_moderator, remove_moderator, add_ban, remove_ban, add_invite,
  remove_invite, kick_avatar, get_room, get_room_summaries, send_persistent_message,
  get_persistent_headers, get_persistent_message, update_persistent_message,
  update_persistent_messages, ignore_status, failover_re_login_avatar, set_api_version,
  set_avatar_attributes, get_any_avatar,
}
use stationapiv.Gateway.{GatewayState}
use stationapiv.Gateway.Incoming.{handle}
use stationapiv.Gateway.Silence.{is_raised, IsQuiet}
use stationapiv.Gateway.Requests.Rights.{
  handle_add_ban-IsQuiet, handle_add_invite-IsQuiet, handle_add_moderator-IsQuiet,
  handle_remove_ban-IsQuiet, handle_remove_invite-IsQuiet, handle_remove_moderator-IsQuiet,
  handle_kick_avatar-IsQuiet,
}
use stationapiv.Gateway.Requests.Contacts.{
  handle_add_friend-IsQuiet, handle_add_ignore-IsQuiet, handle_remove_friend-IsQuiet,
  handle_remove_ignore-IsQuiet, handle_friend_status-IsQuiet, handle_ignore_status-IsQuiet,
  handle_send_instant_message-IsQuiet,
}
use stationapiv.Gateway.Requests.Rooms.{
  handle_create_room-IsQuiet, handle_destroy_room-IsQuiet, handle_enter_room-IsQuiet,
  handle_leave_room-IsQuiet, handle_send_room_message-IsQuiet, handle_get_room-IsQuiet,
  handle_get_room_summaries-IsQuiet,
}
use stationapiv.Gateway.Requests.Avatars.{
  handle_logout_avatar-IsQuiet, handle_login_avatar-IsQuiet, handle_failover-IsQuiet,
  handle_get_any_avatar-IsQuiet, handle_set_avatar_attributes-IsQuiet,
  handle_set_api_version-IsQuiet,
}
use stationapiv.Gateway.Requests.Mail.{
  handle_send_persistent_message-IsQuiet, handle_get_persistent_headers-IsQuiet,
  handle_get_persistent_message-IsQuiet, handle_update_persistent_message-IsQuiet,
  handle_update_persistent_messages-IsQuiet,
}

abbrev is_logout : Request → Bool
is_logout (logout_avatar r) = true
is_logout _ = false

module _ (env : Env) (fuel version : ℕ) where
  -- A logout writes to a table of the website after its messages.
  abbrev pub may_record : Request → Bool
  may_record q = is_logout q && env.website.enabled

  handle-IsQuiet : (q : Request) → may_record q ≡ false → IsQuiet (handle env fuel version q)
  unfolding handle
  handle-IsQuiet (login_avatar r) h = handle_login_avatar-IsQuiet env fuel r
  handle-IsQuiet (logout_avatar r) h = handle_logout_avatar-IsQuiet env fuel h r
  handle-IsQuiet (create_room r) h = handle_create_room-IsQuiet env fuel r
  handle-IsQuiet (destroy_room r) h = handle_destroy_room-IsQuiet env fuel r
  handle-IsQuiet (send_instant_message r) h = handle_send_instant_message-IsQuiet env fuel r
  handle-IsQuiet (send_room_message r) h = handle_send_room_message-IsQuiet env fuel r
  handle-IsQuiet (add_friend r) h = handle_add_friend-IsQuiet env fuel r
  handle-IsQuiet (remove_friend r) h = handle_remove_friend-IsQuiet env fuel r
  handle-IsQuiet (friend_status r) h = handle_friend_status-IsQuiet env fuel r
  handle-IsQuiet (add_ignore r) h = handle_add_ignore-IsQuiet env fuel r
  handle-IsQuiet (remove_ignore r) h = handle_remove_ignore-IsQuiet env fuel r
  handle-IsQuiet (enter_room r) h = handle_enter_room-IsQuiet env fuel r
  handle-IsQuiet (leave_room r) h = handle_leave_room-IsQuiet env fuel r
  handle-IsQuiet (add_moderator r) h = handle_add_moderator-IsQuiet env fuel r
  handle-IsQuiet (remove_moderator r) h = handle_remove_moderator-IsQuiet env fuel r
  handle-IsQuiet (add_ban r) h = handle_add_ban-IsQuiet env fuel r
  handle-IsQuiet (remove_ban r) h = handle_remove_ban-IsQuiet env fuel r
  handle-IsQuiet (add_invite r) h = handle_add_invite-IsQuiet env fuel r
  handle-IsQuiet (remove_invite r) h = handle_remove_invite-IsQuiet env fuel r
  handle-IsQuiet (kick_avatar r) h = handle_kick_avatar-IsQuiet env fuel r
  handle-IsQuiet (get_room r) h = handle_get_room-IsQuiet r
  handle-IsQuiet (get_room_summaries r) h = handle_get_room_summaries-IsQuiet r
  handle-IsQuiet (send_persistent_message r) h = handle_send_persistent_message-IsQuiet env fuel r
  handle-IsQuiet (get_persistent_headers r) h = handle_get_persistent_headers-IsQuiet env r
  handle-IsQuiet (get_persistent_message r) h = handle_get_persistent_message-IsQuiet env r
  handle-IsQuiet (update_persistent_message r) h = handle_update_persistent_message-IsQuiet env r
  handle-IsQuiet (update_persistent_messages r) h = handle_update_persistent_messages-IsQuiet env r
  handle-IsQuiet (ignore_status r) h = handle_ignore_status-IsQuiet env fuel r
  handle-IsQuiet (failover_re_login_avatar r) h = handle_failover-IsQuiet env fuel r
  handle-IsQuiet (set_api_version r) h = handle_set_api_version-IsQuiet version r
  handle-IsQuiet (set_avatar_attributes r) h = handle_set_avatar_attributes-IsQuiet env fuel r
  handle-IsQuiet (get_any_avatar r) h = handle_get_any_avatar-IsQuiet env fuel r

  -- Whatever request the gateway dispatches, whatever the database answers, and a logout only
  -- where the integration of the website is disabled: where the handler ends in an exception, no
  -- message was sent to any client, be it of a registered address or the one that asked.
  pub handle_raised :
      (q : Request) (g : GatewayState) (r : Result (Unit {0}) × GatewayState)
      → may_record q ≡ false
      → handle env fuel version q g ≡ some r
      → is_raised r.0 ≡ true
      → r.1.outbox ≡ g.outbox
  handle_raised q g r h e x = handle-IsQuiet q h g r e x
