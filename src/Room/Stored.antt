-- ===== src/Room/Stored.antt =====
-- What the methods of a room write to the database.
use stationapiv.Prelude.{ℕ, ◌≡◌, ◌&&◌, List, [], ◌∷◌, ◌++◌, if◌then◌else◌, arith}
use stationapiv.Storage.{
  Env, Statement, statement, null, int, persist_banned, delete_administrator, delete_moderator,
  delete_banned, done_or_raise, execute,
}
use stationapiv.Room.{
  Ptr, ChatRoom, has_id, is_persistent, is_in_room, is_moderator, is_administrator, is_banned,
  is_invited,
}
use stationapiv.Room.Methods.{
  RoomState, enter_room, leave_room, kick_avatar, add_administrator, add_moderator, add_banned,
  add_invite, remove_administrator, remove_moderator, remove_banned, remove_invite,
}
use stationapiv.Room.Calls.{
  RoomCall, enters, leaves, kicks, adds_administrator, adds_moderator, adds_banned, adds_invite,
  removes_administrator, removes_moderator, removes_banned, removes_invite, call, is_effective,
  is_stored,
}
use stationapiv.Room.Effect.{nonempty_of_any}

-- Whoever is given a right, or is banned, is a NULL in the table of bans.
abbrev pub statement_of : RoomCall → ChatRoom → List Statement
statement_of (adds_administrator src p) r =
    statement persist_banned (null ∷ int r.room_id ∷ []) ∷ []
statement_of (adds_moderator src p) r = statement persist_banned (null ∷ int r.room_id ∷ []) ∷ []
statement_of (adds_banned src p) r = statement persist_banned (null ∷ int r.room_id ∷ []) ∷ []
statement_of (removes_administrator src id) r =
    statement delete_administrator (int id ∷ int r.room_id ∷ []) ∷ []
statement_of (removes_moderator src id) r =
    statement delete_moderator (int id ∷ int r.room_id ∷ []) ∷ []
statement_of (removes_banned src id) r = statement delete_banned (int id ∷ int r.room_id ∷ []) ∷ []
statement_of _ r = []

module _ (env : Env) (id_of : Ptr → ℕ) where
  -- Whatever the database answers, a call of a method of a room executes one statement if it is
  -- effective and gives or takes a right or a ban, in a persistent room that has its pointer to the
  -- service, and else none. The one for a new administrator, moderator or ban is an INSERT into the
  -- table of bans, with NULL for the avatar; the others are a DELETE with the id from the table of
  -- their role.
  pub call-history :
      (c : RoomCall) (s : RoomState)
      → (call env id_of c s).1.history ≡ (
          if is_stored c
            && is_effective id_of c s.room
            && is_persistent s.room
            && s.room.has_room_service
          then s.history ++ statement_of c s.room
          else s.history)
  unfolding call enter_room leave_room kick_avatar add_administrator add_moderator add_banned
      add_invite remove_administrator remove_moderator remove_banned remove_invite is_in_room
      is_moderator is_administrator is_banned is_invited execute done_or_raise
  call-history (enters p password) s = ground arith
  call-history (leaves p) s = ground arith
  call-history (kicks src p) s = ground arith
  call-history (adds_administrator src p) s = ground arith
  call-history (adds_moderator src p) s = ground arith
  call-history (adds_banned src p) s = ground arith
  call-history (adds_invite src p) s = ground arith
  call-history (removes_administrator src id) s =
      ground (arith, nonempty_of_any (has_id id_of id) s.room.administrators)
  call-history (removes_moderator src id) s =
      ground (arith, nonempty_of_any (has_id id_of id) s.room.moderators)
  call-history (removes_banned src id) s =
      ground (arith, nonempty_of_any (has_id id_of id) s.room.banned)
  call-history (removes_invite src id) s =
      ground (arith, nonempty_of_any (has_id id_of id) s.room.invited)
