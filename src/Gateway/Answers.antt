-- ===== src/Gateway/Answers.antt =====
-- Every request of the gateway is handled to an end.
use stationapiv.Prelude.{ℕ, suc, ◌+◌, ◌≡◌, refl, ◌⊎◌, inl, inr, List, some, length}
use stationapiv.Exec.{chat_result, database, standard, foreign, Result, ok, raised, fault}
use stationapiv.Storage.{Env}
use stationapiv.AvatarService.{Key}
use stationapiv.AvatarService.Termination.{Selects, Knows}
use stationapiv.AvatarService.Fuel.{get_avatar-terminates}
use stationapiv.Protocol.Dispatch.{
  Request, login_avatar, logout_avatar, create_room, destroy_room, send_instant_message,
  send_room_message, add_friend, remove_friend, friend_status, add_ignore, remove_ignore,
  enter_room, leave_room, add_moderator, remove_moderator, add_ban, remove_ban, add_invite,
  remove_invite, kick_avatar, get_room, get_room_summaries, send_persistent_message,
  get_persistent_headers, get_persistent_message, update_persistent_message,
  update_persistent_messages, ignore_status, failover_re_login_avatar, set_api_version,
  set_avatar_attributes, get_any_avatar,
}
use stationapiv.Gateway.{GatewayState, avatars_of, put_avatars, fresh_response, look_up}
use stationapiv.Gateway.Incoming.{handle, catch_known, handle_incoming_message}
use stationapiv.Gateway.Handlers.Rooms.{handle_get_room, handle_get_room_summaries}
use stationapiv.Gateway.Handlers.Avatars.{handle_set_api_version}
use stationapiv.Gateway.Handlers.Mail.{
  handle_get_persistent_headers, handle_get_persistent_message, handle_update_persistent_message,
  handle_update_persistent_messages,
}
use stationapiv.Gateway.Ends.{Ends, lift-Ends, bind-Ends, found_or-Ends}
use stationapiv.Gateway.Ends.Handlers.{
  handle_login_avatar-Ends, handle_logout_avatar-Ends, handle_create_room-Ends,
  handle_destroy_room-Ends, handle_send_instant_message-Ends, handle_send_room_message-Ends,
  handle_add_friend-Ends, handle_remove_friend-Ends, handle_friend_status-Ends,
  handle_add_ignore-Ends, handle_remove_ignore-Ends, handle_enter_room-Ends, handle_leave_room-Ends,
  handle_add_moderator-Ends, handle_remove_moderator-Ends, handle_add_ban-Ends,
  handle_remove_ban-Ends, handle_add_invite-Ends, handle_remove_invite-Ends,
  handle_kick_avatar-Ends, handle_send_persistent_message-Ends, handle_ignore_status-Ends,
  handle_failover-Ends, handle_set_avatar_attributes-Ends, handle_get_any_avatar-Ends,
}

module _ (env : Env) (fuel version : ℕ) (look_up-Ends : (k : Key) → Ends (look_up env fuel k)) where
  handle-Ends : (q : Request) → Ends (handle env fuel version q)
  unfolding handle handle_get_persistent_headers handle_get_persistent_message handle_get_room
      handle_get_room_summaries handle_set_api_version handle_update_persistent_message
      handle_update_persistent_messages stationapiv.Gateway.Handlers.lookup_room
  handle-Ends (login_avatar r) = handle_login_avatar-Ends env fuel look_up-Ends r
  handle-Ends (logout_avatar r) = handle_logout_avatar-Ends env fuel look_up-Ends r
  handle-Ends (create_room r) = handle_create_room-Ends env fuel look_up-Ends r
  handle-Ends (destroy_room r) = handle_destroy_room-Ends env fuel look_up-Ends r
  handle-Ends (send_instant_message r) = handle_send_instant_message-Ends env fuel look_up-Ends r
  handle-Ends (send_room_message r) = handle_send_room_message-Ends env fuel look_up-Ends r
  handle-Ends (add_friend r) = handle_add_friend-Ends env fuel look_up-Ends r
  handle-Ends (remove_friend r) = handle_remove_friend-Ends env fuel look_up-Ends r
  handle-Ends (friend_status r) = handle_friend_status-Ends env fuel look_up-Ends r
  handle-Ends (add_ignore r) = handle_add_ignore-Ends env fuel look_up-Ends r
  handle-Ends (remove_ignore r) = handle_remove_ignore-Ends env fuel look_up-Ends r
  handle-Ends (enter_room r) = handle_enter_room-Ends env fuel look_up-Ends r
  handle-Ends (leave_room r) = handle_leave_room-Ends env fuel look_up-Ends r
  handle-Ends (add_moderator r) = handle_add_moderator-Ends env fuel look_up-Ends r
  handle-Ends (remove_moderator r) = handle_remove_moderator-Ends env fuel look_up-Ends r
  handle-Ends (add_ban r) = handle_add_ban-Ends env fuel look_up-Ends r
  handle-Ends (remove_ban r) = handle_remove_ban-Ends env fuel look_up-Ends r
  handle-Ends (add_invite r) = handle_add_invite-Ends env fuel look_up-Ends r
  handle-Ends (remove_invite r) = handle_remove_invite-Ends env fuel look_up-Ends r
  handle-Ends (kick_avatar r) = handle_kick_avatar-Ends env fuel look_up-Ends r
  handle-Ends (get_room r) = search (lift-Ends, bind-Ends, found_or-Ends) depth 12
  handle-Ends (get_room_summaries r) = search (lift-Ends, bind-Ends)
  handle-Ends (send_persistent_message r) =
      handle_send_persistent_message-Ends env fuel look_up-Ends r
  handle-Ends (get_persistent_headers r) = search (lift-Ends, bind-Ends)
  handle-Ends (get_persistent_message r) = search (lift-Ends, bind-Ends)
  handle-Ends (update_persistent_message r) = search (lift-Ends, bind-Ends)
  handle-Ends (update_persistent_messages r) = search (lift-Ends, bind-Ends)
  handle-Ends (ignore_status r) = handle_ignore_status-Ends env fuel look_up-Ends r
  handle-Ends (failover_re_login_avatar r) = handle_failover-Ends env fuel look_up-Ends r
  handle-Ends (set_api_version r) = search (lift-Ends)
  handle-Ends (set_avatar_attributes r) = handle_set_avatar_attributes-Ends env fuel look_up-Ends r
  handle-Ends (get_any_avatar r) = handle_get_any_avatar-Ends env fuel look_up-Ends r

-- What a request comes to: a response, an exception that is not caught, or undefined behaviour
abbrev pub IsEnd : Result (Unit {0}) → Type 0
IsEnd x = (x ≡ ok tt) ⊎ ((x ≡ raised standard) ⊎ ((x ≡ raised foreign) ⊎ (x ≡ fault)))

catch_known-IsEnd : (r : Result (Unit {0}) × GatewayState) → IsEnd (catch_known r).0
unfolding catch_known
catch_known-IsEnd (ok u, g) = inl refl
catch_known-IsEnd (raised (chat_result code), g) = inl refl
catch_known-IsEnd (raised (database n), g) = inl refl
catch_known-IsEnd (raised standard, g) = inr (inl refl)
catch_known-IsEnd (raised foreign, g) = inr (inr (inl refl))
catch_known-IsEnd (fault, g) = inr (inr (inr refl))

module _ (env : Env) (known : List ℕ) (selects : Selects env) (knows : Knows env known) where
  look_up-Ends : (more : ℕ) (k : Key) → Ends (look_up env (more + suc (suc (length known))) k)
  look_up-Ends more k g =
      let (r, all) = get_avatar-terminates env known selects knows k (avatars_of g) in
      ((r.0, put_avatars g r.1), rw (all more, look_up) refl)

  -- Where a SELECT of an avatar by its id hands out only that id, and every id comes from a list
  -- of known ones, every request of the gateway is handled to an end, with fuel that is the
  -- length of that list and two more at least: a response is sent, or an exception that is
  -- neither a ChatResultException nor a MariaDBException is left uncaught, or the behaviour is
  -- undefined.
  pub handle_incoming_message-handle :
      (more version : ℕ) (q : Request) (g : GatewayState)
      → (out : Result (Unit {0}) × GatewayState) × (handle_incoming_message
            (handle env (more + suc (suc (length known))) version q)
            g
          ≡ some out)
        × IsEnd out.0
  unfolding handle_incoming_message
  handle_incoming_message-handle more version q g =
      let end =
        handle-Ends env (more + suc (suc (length known))) version (look_up-Ends more) q
          (record g { response = fresh_response }) in
      (catch_known end.0, rw (end.1, handle_incoming_message) refl, catch_known-IsEnd end.0)
