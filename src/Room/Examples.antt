-- ===== src/Room/Examples.antt =====
-- Runs of the room methods, and the theorems about them at concrete rooms.
use stationapiv.Prelude.{
  ℕ, ◌+◌, ◌≡◌, refl, ◌↔◌, true, [], ◌∷◌, codes, count, any, reject, erase_removed, arith,
}
use stationapiv.Enums.ResultCode.{room_noprivileges, room_bannedavatar}
use stationapiv.Exec.{raised, fault, chat_result}
use stationapiv.Storage.{
  no_website, Env, done, failed, null, int, statement, persist_banned, execute, done_or_raise,
}
use stationapiv.Prelude.{◌||◌, if◌then◌else◌, text_eq, ◌==◌}
use stationapiv.Avatar.{ChatAvatar, chat_avatar}
use stationapiv.Avatar.Contacts.{is_ignored}
use stationapiv.Room.Audience.{
  occurrences, get_remote_addresses, get_avatar_ids, get_remote_addresses-occurrences,
  get_avatar_ids-heard,
}
use stationapiv.Room.{
  ChatRoom, Ptr, chat_room, has_id, is_creator, is_moderator, is_persistent, is_banned,
}
use stationapiv.Room.Methods.{RoomState, enter_room, add_banned, kick_avatar}
use stationapiv.Room.Calls.{
  adds_moderator, member, administrator, moderator, ban, invite, adds_banned, removes_banned,
  removes_administrator, call, holds,
}
use stationapiv.Room.Effect.{room-call}
use stationapiv.Room.Invariant.{IsValid, call-IsValid}
use stationapiv.Room.Refinement.{call-refines, call-call_undone}
use stationapiv.Room.Faults.{is_undefined, call-fault}
use stationapiv.Room.Stored.{call-history}
use stationapiv.Room.Access.{call-IsAuthorised, enter_room_banned, enter_room-max_room_size}

-- Avatar ids are the places of the avatars plus 100.
abbrev avatar_id : Ptr → ℕ
avatar_id p = p + 100

abbrev healthy : Env
healthy = record {
  answer = λ h. done 1;
  char_is_signed = true;
  unix_time = 0;
  put_time = λ t. [];
  website = no_website;
}

abbrev broken : Env
broken = record {
  answer = λ h. failed 1;
  char_is_signed = true;
  unix_time = 0;
  put_time = λ t. [];
  website = no_website;
}

-- A persistent room of avatar 100, who moderates it; no one is in it.
lounge : RoomState
unfolding chat_room
lounge = record {
  room = chat_room 7 0 (codes "ann") (codes "swg") 100 (codes "lounge") [] [] 4 2 (codes "swg");
  history = [];
}

-- Avatar 101 is banned and kept out; the ban is in the database with no avatar.
ban_keeps_out :
    (enter_room healthy avatar_id 1 [] (add_banned healthy avatar_id 100 1 lounge).1).0
    ≡ raised (chat_result room_bannedavatar)
unfolding lounge enter_room add_banned execute is_banned is_moderator any done_or_raise
    is_persistent
ban_keeps_out = refl

ban_statement :
    (add_banned healthy avatar_id 100 1 lounge).1.history
    ≡ statement persist_banned (null ∷ int 7 ∷ []) ∷ []
unfolding lounge add_banned execute is_banned is_moderator any done_or_raise is_persistent
ban_statement = refl

no_privileges :
    (kick_avatar healthy avatar_id 101 1 lounge).0 ≡ raised (chat_result room_noprivileges)
unfolding lounge kick_avatar is_moderator any
no_privileges = refl

-- With a duplicate the one-iterator `erase` leaves a stale element behind; hence the invariant.
stale_tail : erase_removed (has_id avatar_id 101) (1 ∷ 1 ∷ 2 ∷ []) ≡ 2 ∷ 2 ∷ []
unfolding erase_removed reject
stale_tail = refl

lounge-IsValid : IsValid avatar_id lounge.room
unfolding lounge count
lounge-IsValid member id = omega arith
lounge-IsValid administrator id = ground arith
lounge-IsValid moderator id = ground arith
lounge-IsValid ban id = omega arith
lounge-IsValid invite id = omega arith

room-call_example :
    (call broken avatar_id (adds_banned 100 1) lounge).1.room
    ≡ record lounge.room { banned = 1 ∷ [] }
unfolding lounge any
room-call_example = room-call broken avatar_id (adds_banned 100 1) lounge

call-IsValid_example : IsValid avatar_id (call broken avatar_id (adds_banned 100 1) lounge).1.room
call-IsValid_example = call-IsValid avatar_id broken (adds_banned 100 1) lounge lounge-IsValid

call-refines_example :
    holds avatar_id ban (call broken avatar_id (adds_banned 100 1) lounge).1.room 101 ≡ true
unfolding lounge any
call-refines_example =
    call-refines avatar_id broken (adds_banned 100 1) lounge ban 101 lounge-IsValid

call-call_undone_example :
    (call healthy avatar_id
      (removes_banned 100 101)
      (call healthy avatar_id (adds_banned 100 1) lounge).1).1.room
    ≡ lounge.room
unfolding lounge any call add_banned is_moderator is_banned execute done_or_raise is_persistent
call-call_undone_example =
    call-call_undone avatar_id healthy (adds_banned 100 1) (removes_banned 100 101) ban 1 lounge
      lounge-IsValid refl refl refl refl

call-IsAuthorised_example : (call healthy avatar_id (adds_banned 101 2) lounge).1 ≡ lounge
unfolding lounge is_moderator any
call-IsAuthorised_example = call-IsAuthorised healthy avatar_id (adds_banned 101 2) lounge (λ e. cc)

call-fault_example :
    ((call healthy avatar_id (removes_administrator 100 105) lounge).0 ≡ fault)
    ↔ (is_undefined avatar_id (removes_administrator 100 105) lounge.room ≡ true)
call-fault_example = call-fault healthy avatar_id (removes_administrator 100 105) lounge

enter_room_banned_example :
    let t : RoomState = (add_banned healthy avatar_id 100 1 lounge).1 in
    enter_room healthy avatar_id 1 [] t ≡ (raised (chat_result room_bannedavatar), t)
unfolding lounge is_moderator any
enter_room_banned_example = enter_room_banned healthy avatar_id 100 1 [] lounge refl

call-history_example :
    (call broken avatar_id (adds_moderator 100 1) lounge).1.history
    ≡ statement persist_banned (null ∷ int 7 ∷ []) ∷ []
unfolding lounge any is_creator is_persistent
call-history_example = call-history broken avatar_id (adds_moderator 100 1) lounge

enter_room-max_room_size_example :
    (enter_room healthy avatar_id 1 []
      (record lounge { room = record lounge.room { max_room_size = 0 } })).0
    ≡ (enter_room healthy avatar_id 1 [] lounge).0
enter_room-max_room_size_example = enter_room-max_room_size healthy avatar_id 1 [] 0 lounge

-- Avatars at the pointers 1 and 2 are from one place, the others from another.
avatar_of : Ptr → ChatAvatar
avatar_of p =
    record (chat_avatar (codes "bob") (if p == 1 || p == 2 then codes "corbantis" else codes "swg")
      7 0 []) { avatar_id = p + 100 }

abbrev crowd : ChatRoom
crowd = record lounge.room { avatars = 1 ∷ 2 ∷ 3 ∷ [] }

get_remote_addresses-occurrences_example :
    occurrences (codes "corbantis") (get_remote_addresses avatar_of crowd) ≡ 1
unfolding avatar_of lounge any text_eq chat_room chat_avatar
get_remote_addresses-occurrences_example =
    get_remote_addresses-occurrences avatar_of (codes "corbantis") crowd

get_avatar_ids-heard_example : any (λ x. x == 101) (get_avatar_ids avatar_of 102 crowd) ≡ true
unfolding avatar_of lounge any chat_avatar is_ignored
get_avatar_ids-heard_example = get_avatar_ids-heard avatar_of 102 101 crowd
