-- ===== src/Room/Effect.antt =====
-- What a call of `ChatRoom` does to the room, whatever the database answers.
use stationapiv.Prelude.{ℕ, ◌≡◌, Bool, true, List, [], ◌∷◌, ltb, length, any, if◌then◌else◌, arith}
use stationapiv.Storage.{Env}
use stationapiv.Room.{
  Ptr, has_id, is_in_room, is_moderator, is_administrator, is_banned, is_invited,
}
use stationapiv.Room.Methods.{
  RoomState, enter_room, leave_room, kick_avatar, add_administrator, add_moderator, add_banned,
  add_invite, remove_administrator, remove_moderator, remove_banned, remove_invite,
}
use stationapiv.Room.Calls.{
  RoomCall, enters, leaves, kicks, adds_administrator, adds_moderator, adds_banned, adds_invite,
  removes_administrator, removes_moderator, removes_banned, removes_invite, call, change_of,
  apply_change, is_effective,
}

-- `vec.empty()` before a search decides nothing of its own.
pub nonempty_of_any : (p : Ptr → Bool) (xs : List Ptr) → any p xs ≡ true → ltb 0 (length xs) ≡ true
unfolding any
nonempty_of_any p [] h = ground arith
nonempty_of_any p (x ∷ xs) h = ground arith

module _ (env : Env) (id_of : Ptr → ℕ) where
  -- A call of a method changes the room exactly when it is effective, and then by its one change;
  -- an exception of the database comes after the change and takes nothing of it back.
  pub room-call :
      (c : RoomCall) (s : RoomState)
      → (call env id_of c s).1.room ≡ (
          if is_effective id_of c s.room
          then apply_change id_of (change_of id_of c) s.room
          else s.room)
  unfolding call enter_room leave_room kick_avatar add_administrator add_moderator add_banned
      add_invite remove_administrator remove_moderator remove_banned remove_invite is_in_room
      is_moderator is_administrator is_banned is_invited
  room-call (enters p password) s = ground arith
  room-call (leaves p) s = ground arith
  room-call (kicks src p) s = ground arith
  room-call (adds_administrator src p) s = ground arith
  room-call (adds_moderator src p) s = ground arith
  room-call (adds_banned src p) s = ground arith
  room-call (adds_invite src p) s = ground arith
  room-call (removes_administrator src id) s =
      ground (arith, nonempty_of_any (has_id id_of id) s.room.administrators)
  room-call (removes_moderator src id) s =
      ground (arith, nonempty_of_any (has_id id_of id) s.room.moderators)
  room-call (removes_banned src id) s =
      ground (arith, nonempty_of_any (has_id id_of id) s.room.banned)
  room-call (removes_invite src id) s =
      ground (arith, nonempty_of_any (has_id id_of id) s.room.invited)
