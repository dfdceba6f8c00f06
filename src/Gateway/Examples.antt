-- ===== src/Gateway/Examples.antt =====
-- Two avatars of one game server, and a room that the first has created.
use stationapiv.Prelude.{
  ℕ, ◌≡◌, refl, sym, ap, ◌∙◌, Bool, true, false, List, [], ◌∷◌, ◌++◌, Option, none, some, Text,
  codes, set, if◌then◌else◌,
}
use stationapiv.Enums.ResultCode.{room_noprivileges}
use stationapiv.Exec.{database, Result, ok, raised, fault, chat_result, standard}
use stationapiv.Exec.Fuel.{Run}
use stationapiv.Storage.{
  failed, no_website, Env, History, rows, statement, int, load_avatar_by_id, load_avatar_by_name,
  text,
}
use stationapiv.Avatar.{ChatAvatar, chat_avatar}
use stationapiv.Room.{ChatRoom, chat_room}
use stationapiv.AvatarService.{Cell, Key, by_name, by_id}
use stationapiv.Protocol.Requests.{
  ReqLoginAvatar, ReqAddBan, ReqSendInstantMessage, ReqRemoveIgnore, ReqEnterRoom,
}
use stationapiv.Protocol.Dispatch.{add_ban, login_avatar}
use stationapiv.Gateway.{
  Recipient, Outgoing, m_leave_room, GatewayState, Response, fresh_response, m_instant_message,
  client_of, look_up,
}
use stationapiv.Gateway.Outbox.{send_to}
use stationapiv.AvatarService.{load_stored_avatar}
use stationapiv.AvatarService.Friends.{
  friends_env, both_ids, friends_env-Selects, friends_env-Knows,
}
use stationapiv.Gateway.Answers.{IsEnd, handle_incoming_message-handle}
use stationapiv.Gateway.Incoming.{
  handle, handle_incoming_message, execute_handler_with_fallbacks, chat_result_failure,
  handle_incoming_message-execute_handler_with_fallbacks,
}
use stationapiv.Gateway.Requests.{handle_raised}
use stationapiv.Gateway.Outcomes.{handle_send_instant_message_outcome}
use stationapiv.Gateway.Entry.{handle_enter_room_members}
use stationapiv.Gateway.Handlers.Contacts.{handle_send_instant_message, handle_remove_ignore}
use stationapiv.Gateway.Handlers.Rooms.{handle_enter_room}
use stationapiv.Gateway.Handlers.Avatars.{handle_logout_avatar}

abbrev empty_env : Env
empty_env = record {
  answer = λ h. rows [];
  char_is_signed = true;
  unix_time = 0;
  put_time = λ t. [];
  website = no_website;
}

-- With the tables of the website, which no statement reaches
abbrev mirrored_env : Env
mirrored_env = record empty_env {
  answer = λ h. failed 5;
  website = record no_website { enabled = true };
}

abbrev avatar_named : ℕ → Text → ChatAvatar
avatar_named id name = record (chat_avatar name (codes "SWG") 7 0 []) { avatar_id = id }

abbrev ann : ChatAvatar
ann = avatar_named 100 (codes "ann")

abbrev bob : ChatAvatar
bob = record (avatar_named 101 (codes "bob")) { ignore_list = record { ignored = 1 } ∷ [] }

abbrev lounge : ChatRoom
lounge = chat_room 0 1 (codes "ann") (codes "SWG") 100 (codes "a") [] [] 0 10 (codes "SWG")

abbrev server : GatewayState
server = record {
  avatar_cache = record { at = 1; avatar = ann } ∷ record { at = 2; avatar = bob } ∷ [];
  online_avatars = [];
  next = 3;
  rooms = lounge ∷ [];
  next_room_id = 1;
  history = [];
  client_addresses = codes "SWG" ∷ [];
  outbox = [];
  response = fresh_response;
}

abbrev ban_request : ReqAddBan
ban_request = record {
  track = 1;
  src_avatar_id = 101;
  dest_avatar_name = codes "ann";
  dest_avatar_address = codes "SWG";
  dest_room_address = codes "SWG+a";
  src_address = [];
}

abbrev refused : GatewayState
refused = record server { response = record fresh_response { room_id = some 0 } }

-- Bob, who is no moderator, bans Ann.
handle_raised_example : refused.outbox ≡ server.outbox
unfolding handle stationapiv.Exec.Fuel.resume stationapiv.AvatarService.Load.get_avatar
    stationapiv.Prelude.text_eq stationapiv.Room.Methods.add_banned stationapiv.Room.is_moderator
    stationapiv.Prelude.any
handle_raised_example =
    handle_raised mirrored_env 1 1 (add_ban ban_request) server
      (raised (chat_result room_noprivileges), refused) refl refl refl

handle_incoming_message-execute_handler_with_fallbacks_example :
    (q : Result (Unit {0}) × GatewayState) × (handle_incoming_message
        (handle empty_env 1 1 (add_ban ban_request))
        server
      ≡ some q)
    × (q ≡ (
      ok tt,
      record refused { response = record refused.response { result = room_noprivileges } },
    ))
unfolding handle execute_handler_with_fallbacks stationapiv.Exec.Fuel.resume
    stationapiv.AvatarService.Load.get_avatar stationapiv.Prelude.text_eq
    stationapiv.Room.Methods.add_banned stationapiv.Room.is_moderator stationapiv.Prelude.any
handle_incoming_message-execute_handler_with_fallbacks_example =
    handle_incoming_message-execute_handler_with_fallbacks
      (handle empty_env 1 1 (add_ban ban_request)) server
      (
        ok chat_result_failure,
        record refused { response = record refused.response { result = room_noprivileges } },
      )
      refl

abbrev whisper : ReqSendInstantMessage
whisper = record {
  track = 2;
  src_avatar_id = 101;
  dest_name = codes "ann";
  dest_address = codes "SWG";
  message = codes "hi";
  oob = [];
  src_address = [];
}

handle_send_instant_message_outcome_example :
    handle_send_instant_message empty_env 1 whisper server
    ≡ some (
      ok tt,
      record server {
        outbox = (client_of (codes "SWG"), m_instant_message bob 100 (codes "hi") []) ∷ [];
      },
    )
unfolding stationapiv.AvatarService.get_cached_avatar stationapiv.Prelude.text_eq chat_avatar
    stationapiv.AvatarService.avatar_at stationapiv.Gateway.are_alive
    stationapiv.Avatar.Contacts.is_ignored stationapiv.Prelude.any send_to
handle_send_instant_message_outcome_example =
    handle_send_instant_message_outcome empty_env 0 server whisper 2 1 bob ann refl refl refl refl
      refl

abbrev forgive : ReqRemoveIgnore
forgive = record {
  track = 4;
  src_avatar_id = 101;
  dest_name = codes "eve";
  dest_address = [];
  src_address = [];
}

abbrev searched : GatewayState
searched = record server {
  history = statement load_avatar_by_name (text (codes "eve") ∷ text [] ∷ []) ∷ [];
}

-- Nobody has the name, and the list of the ignored is not empty.
forgive_stranger : handle_remove_ignore empty_env 1 forgive server ≡ some (fault, searched)
unfolding stationapiv.AvatarService.get_cached_avatar stationapiv.AvatarService.Load.get_avatar
    stationapiv.Exec.Fuel.resume stationapiv.Prelude.text_eq chat_avatar stationapiv.Storage.query
    stationapiv.Storage.rows_or_raise stationapiv.Strings.c_str stationapiv.Strings.from_wide_string
    stationapiv.AvatarService.avatar_at handle_remove_ignore
forgive_stranger = refl

abbrev entry : ReqEnterRoom
entry = record {
  track = 5;
  src_avatar_id = 101;
  room_address = codes "SWG+a";
  room_password = [];
  passive_create = none;
  requesting_entry = false;
  src_address = [];
}

handle_enter_room_members_example :
    (out : Result (Unit {0}) × GatewayState) × (handle_enter_room empty_env 1 entry server
      ≡ some out)
    × (out.1.rooms ≡ record lounge { avatars = 2 ∷ [] } ∷ [])
unfolding stationapiv.AvatarService.get_cached_avatar stationapiv.RoomService.find_room
    stationapiv.Prelude.text_eq chat_room stationapiv.Gateway.are_alive handle_enter_room
    stationapiv.Exec.Fuel.resume stationapiv.AvatarService.Load.get_avatar
    stationapiv.Room.Methods.enter_room stationapiv.Room.is_banned stationapiv.Prelude.any
    stationapiv.Room.is_in_room stationapiv.Room.is_private
handle_enter_room_members_example =
    handle_enter_room_members empty_env 0 server entry 2 0 lounge refl refl refl refl

abbrev ann_login : ReqLoginAvatar
ann_login = record {
  track = 6;
  user_id = 7;
  name = codes "ann";
  address = codes "SWG+naboo";
  login_location = [];
  login_priority = 0;
  login_attributes = 0;
}

abbrev started : GatewayState
started = record server { avatar_cache = []; next = 1; rooms = [] }

handle_incoming_message-handle_example :
    (out : Result (Unit {0}) × GatewayState) × (handle_incoming_message
        (handle friends_env 7 1 (login_avatar ann_login))
        started
      ≡ some out)
    × IsEnd out.0
handle_incoming_message-handle_example =
    handle_incoming_message-handle friends_env both_ids friends_env-Selects friends_env-Knows 3 1
      (login_avatar ann_login) started

abbrev crowded : GatewayState
crowded = record server { rooms = record lounge { avatars = 2 ∷ [] } ∷ [] }

abbrev end_and_outbox :
    Option (Result (Unit {0}) × GatewayState)
    → Option (Result (Unit {0}) × List (Recipient × Outgoing))
end_and_outbox none = none
end_and_outbox (some (r, g)) = some (r, g.outbox)

-- The room is told that Bob has left, and the logout fails with the table of the website.
logout_told :
    end_and_outbox
      (handle_logout_avatar mirrored_env 1 (record { track = 3; avatar_id = 101 }) crowded)
    ≡ some (raised (database 5), (client_of (codes "SWG"), m_leave_room 101 0) ∷ [])
unfolding handle_logout_avatar stationapiv.Exec.Fuel.resume
    stationapiv.AvatarService.Load.get_avatar stationapiv.Prelude.any stationapiv.Exec.Fuel.for_each
    chat_room stationapiv.Room.Methods.leave_room stationapiv.Room.Audience.get_connected_addresses
    stationapiv.Room.Audience.connected_from stationapiv.Room.Audience.add_new
    stationapiv.Prelude.text_eq chat_avatar stationapiv.Presence.logout_avatar
    stationapiv.Storage.execute stationapiv.Storage.done_or_raise
logout_told = refl
