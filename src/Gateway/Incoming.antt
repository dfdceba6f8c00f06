-- ===== src/Gateway/Incoming.antt =====
-- `HandleIncomingMessage` of src/stationchat/GatewayClient.hpp, over the handler that `OnIncoming`
-- selects, and `ExecuteHandlerWithFallbacks` of src/stationchat/RequestFailureHandling.hpp.
use stationapiv.Prelude.{ℕ, ◌≡◌, refl, Option, none, some}
use mathlib.Core.Path.{subst}
use stationapiv.Enums.ResultCode.{ChatResultCode, room_unknownfailure}
use stationapiv.Exec.{chat_result, database, standard, foreign, Result, ok, raised, fault}
use stationapiv.Exec.Fuel.{Run}
use stationapiv.Storage.{Env}
use stationapiv.Protocol.Dispatch.{
  Request, login_avatar, logout_avatar, create_room, destroy_room, send_instant_message,
  send_room_message, add_friend, remove_friend, friend_status, add_ignore, remove_ignore,
  enter_room, leave_room, add_moderator, remove_moderator, add_ban, remove_ban, add_invite,
  remove_invite, kick_avatar, get_room, get_room_summaries, send_persistent_message,
  get_persistent_headers, get_persistent_message, update_persistent_message,
  update_persistent_messages, ignore_status, failover_re_login_avatar, set_api_version,
  set_avatar_attributes, get_any_avatar,
}
use stationapiv.Gateway.{GatewayState, fresh_response}
use stationapiv.Gateway.Handlers.Rights.{
  handle_add_ban, handle_add_invite, handle_add_moderator, handle_remove_ban, handle_remove_invite,
  handle_remove_moderator, handle_kick_avatar,
}
use stationapiv.Gateway.Handlers.Contacts.{
  handle_add_friend, handle_add_ignore, handle_remove_friend, handle_remove_ignore,
  handle_friend_status, handle_ignore_status, handle_send_instant_message,
}
use stationapiv.Gateway.Handlers.Rooms.{
  handle_create_room, handle_destroy_room, handle_enter_room, handle_leave_room,
  handle_send_room_message, handle_get_room, handle_get_room_summaries,
}
use stationapiv.Gateway.Handlers.Avatars.{
  handle_login_avatar, handle_logout_avatar, handle_failover, handle_get_any_avatar,
  handle_set_avatar_attributes, handle_set_api_version,
}
use stationapiv.Gateway.Handlers.Mail.{
  handle_send_persistent_message, handle_get_persistent_headers, handle_get_persistent_message,
  handle_update_persistent_message, handle_update_persistent_messages,
}

module _ (env : Env) (fuel version : ℕ) where
  unfoldable pub handle : Request → Run GatewayState (Unit {0})
  unfolding handle_add_ban handle_add_invite handle_add_moderator handle_remove_ban
      handle_remove_invite handle_remove_moderator handle_kick_avatar handle_add_friend
      handle_add_ignore handle_remove_friend handle_remove_ignore handle_friend_status
      handle_ignore_status handle_send_instant_message handle_create_room handle_destroy_room
      handle_enter_room handle_leave_room handle_send_room_message handle_get_room
      handle_get_room_summaries handle_login_avatar handle_logout_avatar handle_failover
      handle_get_any_avatar handle_set_avatar_attributes handle_set_api_version
      handle_send_persistent_message handle_get_persistent_headers handle_get_persistent_message
      handle_update_persistent_message handle_update_persistent_messages
  handle (login_avatar r) = handle_login_avatar env fuel r
  handle (logout_avatar r) = handle_logout_avatar env fuel r
  handle (create_room r) = handle_create_room env fuel r
  handle (destroy_room r) = handle_destroy_room env fuel r
  handle (send_instant_message r) = handle_send_instant_message env fuel r
  handle (send_room_message r) = handle_send_room_message env fuel r
  handle (add_friend r) = handle_add_friend env fuel r
  handle (remove_friend r) = handle_remove_friend env fuel r
  handle (friend_status r) = handle_friend_status env fuel r
  handle (add_ignore r) = handle_add_ignore env fuel r
  handle (remove_ignore r) = handle_remove_ignore env fuel r
  handle (enter_room r) = handle_enter_room env fuel r
  handle (leave_room r) = handle_leave_room env fuel r
  handle (add_moderator r) = handle_add_moderator env fuel r
  handle (remove_moderator r) = handle_remove_moderator env fuel r
  handle (add_ban r) = handle_add_ban env fuel r
  handle (remove_ban r) = handle_remove_ban env fuel r
  handle (add_invite r) = handle_add_invite env fuel r
  handle (remove_invite r) = handle_remove_invite env fuel r
  handle (kick_avatar r) = handle_kick_avatar env fuel r
  handle (get_room r) = handle_get_room r
  handle (get_room_summaries r) = handle_get_room_summaries r
  handle (send_persistent_message r) = handle_send_persistent_message env fuel r
  handle (get_persistent_headers r) = handle_get_persistent_headers env r
  handle (get_persistent_message r) = handle_get_persistent_message env r
  handle (update_persistent_message r) = handle_update_persistent_message env r
  handle (update_persistent_messages r) = handle_update_persistent_messages env r
  handle (ignore_status r) = handle_ignore_status env fuel r
  handle (failover_re_login_avatar r) = handle_failover env fuel r
  handle (set_api_version r) = handle_set_api_version version r
  handle (set_avatar_attributes r) = handle_set_avatar_attributes env fuel r
  handle (get_any_avatar r) = handle_get_any_avatar env fuel r

abbrev pub with_result : ChatResultCode → GatewayState → GatewayState
with_result code g = record g { response = record g.response { result = code } }

-- What the `try` of `HandleIncomingMessage` makes of the end of a handler: `ok` is a response sent.
unfoldable pub catch_known : Result (Unit {0}) × GatewayState → Result (Unit {0}) × GatewayState
catch_known (ok u, g) = (ok tt, g)
catch_known (raised (chat_result code), g) = (ok tt, with_result code g)
catch_known (raised (database n), g) = (ok tt, with_result ChatResultCode.database g)
catch_known (raised standard, g) = (raised standard, g)
catch_known (raised foreign, g) = (raised foreign, g)
catch_known (fault, g) = (fault, g)

-- The response is the one of the state at the end.
unfoldable pub handle_incoming_message : Run GatewayState (Unit {0}) → Run GatewayState (Unit {0})
unfolding catch_known
handle_incoming_message handler g = elim (handler (record g { response = fresh_response })) [
  | none ↦ none
  | some r ↦ some (catch_known r)
]

pub data FailureCategory : Type 0 where
  no_failure chat_result_failure database_failure std_exception unknown : FailureCategory

-- `kInternalProtocolError`
abbrev pub internal_protocol_error : ChatResultCode
internal_protocol_error = room_unknownfailure

-- The `catch` clauses of `ExecuteHandlerWithFallbacks`
unfoldable pub catch_all : Result (Unit {0}) × GatewayState → Result FailureCategory × GatewayState
catch_all (ok u, g) = (ok no_failure, g)
catch_all (raised (chat_result code), g) = (ok chat_result_failure, with_result code g)
catch_all (raised (database n), g) = (ok database_failure, with_result ChatResultCode.database g)
catch_all (raised standard, g) = (ok std_exception, with_result internal_protocol_error g)
catch_all (raised foreign, g) = (ok unknown, with_result internal_protocol_error g)
catch_all (fault, g) = (fault, g)

unfoldable pub execute_handler_with_fallbacks :
    Run GatewayState (Unit {0}) → Run GatewayState FailureCategory
unfolding catch_all
execute_handler_with_fallbacks handler g = elim (handler g) [
  | none ↦ none
  | some r ↦ some (catch_all r)
]

-- What `HandleIncomingMessage` comes to where `ExecuteHandlerWithFallbacks` comes to the first.
abbrev pub Agrees :
    Result FailureCategory × GatewayState → Result (Unit {0}) × GatewayState → Type 0
Agrees (ok std_exception, h) q =
    (q.0 ≡ raised standard) × (with_result internal_protocol_error q.1 ≡ h)
Agrees (ok unknown, h) q = (q.0 ≡ raised foreign) × (with_result internal_protocol_error q.1 ≡ h)
Agrees (ok c, h) q = q ≡ (ok tt, h)
Agrees (raised e, h) q = q ≡ (raised e, h)
Agrees (fault, h) q = q ≡ (fault, h)

catches_agree : (x : Result (Unit {0}) × GatewayState) → Agrees (catch_all x) (catch_known x)
unfolding catch_all catch_known
catches_agree (ok u, g) = refl
catches_agree (raised (chat_result code), g) = refl
catches_agree (raised (database k), g) = refl
catches_agree (raised standard, g) = (refl, refl)
catches_agree (raised foreign, g) = (refl, refl)
catches_agree (fault, g) = refl

ends_agree :
    (o : Option (Result (Unit {0}) × GatewayState)) (r : Result FailureCategory × GatewayState)
    → elim o as (λ x. Option (Result FailureCategory × GatewayState)) [
      | none ↦ none
      | some x ↦ some (catch_all x)
    ]
      ≡ some r
    → (q : Result (Unit {0}) × GatewayState) × (elim o
          as (λ x. Option (Result (Unit {0}) × GatewayState)) [
            | none ↦ none
            | some x ↦ some (catch_known x)
          ]
        ≡ some q)
      × Agrees r q
ends_agree none r e = absurd (cc)
ends_agree (some x) r e =
    let same : catch_all x ≡ r = cc in
    (catch_known x, refl, subst (λ y. Agrees y (catch_known x)) same (catches_agree x))

-- For every handler `ExecuteHandlerWithFallbacks` over a response just constructed and
-- `HandleIncomingMessage` lead to the same response and the same state, save where the former
-- reports STD_EXCEPTION or UNKNOWN: the former leaves INTERNAL_PROTOCOL_ERROR in the response,
-- and the exception leaves the latter uncaught.
pub handle_incoming_message-execute_handler_with_fallbacks :
    (handler : Run GatewayState (Unit {0})) (g : GatewayState)
    (r : Result FailureCategory × GatewayState)
    → execute_handler_with_fallbacks handler (record g { response = fresh_response }) ≡ some r
    → (q : Result (Unit {0}) × GatewayState) × (handle_incoming_message handler g ≡ some q)
      × Agrees r q
unfolding handle_incoming_message execute_handler_with_fallbacks
handle_incoming_message-execute_handler_with_fallbacks handler g r e =
    ends_agree (handler (record g { response = fresh_response })) r e
