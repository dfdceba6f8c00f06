-- ===== src/Room/Faults.antt =====
-- Which calls of the room methods run into undefined behaviour.
use stationapiv.Prelude.{
  Text, Bool-cases, inl, inr, any, ℕ, ◌≡◌, ◌↔◌, Bool, true, false, not, ◌&&◌, ◌||◌, ltb, length,
  arith,
}
use stationapiv.Exec.{Exec, fault}
use stationapiv.Storage.{Env, done_or_raise, execute}
use stationapiv.Room.{
  Ptr, ChatRoom, has_id, is_creator, is_persistent, is_in_room, is_moderator, is_administrator,
  is_banned, is_invited,
}
use stationapiv.Room.Methods.{
  RoomState, enter_room, leave_room, kick_avatar, add_administrator, add_moderator, add_banned,
  add_invite, remove_administrator, remove_moderator, remove_banned, remove_invite,
}
use stationapiv.Room.Calls.{
  RoomCall, enters, leaves, kicks, adds_administrator, adds_moderator, adds_banned, adds_invite,
  removes_administrator, removes_moderator, removes_banned, removes_invite, administrator, call,
  holds, is_effective, is_stored,
}
use stationapiv.Room.Effect.{nonempty_of_any}

module _ (id_of : Ptr → ℕ) where
  -- An administrator is removed who is none.
  abbrev pub removes_stranger : RoomCall → ChatRoom → Bool
  removes_stranger (removes_administrator src id) r =
      is_creator r src && ltb 0 (length r.administrators) && not (holds id_of administrator r id)
  removes_stranger _ r = false

  abbrev pub is_undefined : RoomCall → ChatRoom → Bool
  is_undefined c r =
      removes_stranger c r
      || (is_stored c && is_effective id_of c r && is_persistent r && not r.has_room_service)

module _ (env : Env) (id_of : Ptr → ℕ) where
  abbrev IsFaultOf : RoomCall → Exec RoomState (Unit {0}) → Type 0
  IsFaultOf c m = (s : RoomState) → ((m s).0 ≡ fault) ↔ (is_undefined id_of c s.room ≡ true)

  enter_room-fault :
      (p : Ptr) (password : Text) → IsFaultOf (enters p password) (enter_room env id_of p password)
  unfolding enter_room is_in_room is_banned is_invited
  enter_room-fault p password s = ground arith

  leave_room-fault : (p : Ptr) → IsFaultOf (leaves p) (leave_room env id_of p)
  unfolding leave_room
  leave_room-fault p s = ground arith

  kick_avatar-fault : (src : ℕ) (p : Ptr) → IsFaultOf (kicks src p) (kick_avatar env id_of src p)
  unfolding kick_avatar is_moderator is_in_room leave_room
  kick_avatar-fault src p s = ground arith

  add_administrator-fault :
      (src : ℕ) (p : Ptr) → IsFaultOf (adds_administrator src p) (add_administrator env id_of src p)
  unfolding add_administrator is_administrator execute done_or_raise
  add_administrator-fault src p s =
      elim (Bool-cases (any (has_id id_of (id_of p)) s.room.administrators)) [
        | inl e ↦ rw e (ground arith)
        | inr e ↦ rw e (ground arith)
      ]

  add_moderator-fault :
      (src : ℕ) (p : Ptr) → IsFaultOf (adds_moderator src p) (add_moderator env id_of src p)
  unfolding add_moderator is_moderator execute done_or_raise
  add_moderator-fault src p s = ground arith

  add_banned-fault :
      (src : ℕ) (p : Ptr) → IsFaultOf (adds_banned src p) (add_banned env id_of src p)
  unfolding add_banned is_moderator is_banned execute done_or_raise
  add_banned-fault src p s = ground arith

  add_invite-fault :
      (src : ℕ) (p : Ptr) → IsFaultOf (adds_invite src p) (add_invite env id_of src p)
  unfolding add_invite is_moderator is_invited
  add_invite-fault src p s = ground arith

  remove_administrator-fault :
      (src id : ℕ)
      → IsFaultOf (removes_administrator src id) (remove_administrator env id_of src id)
  unfolding remove_administrator is_administrator execute done_or_raise
  remove_administrator-fault src id s =
      ground (arith, nonempty_of_any (has_id id_of id) s.room.administrators)

  remove_moderator-fault :
      (src id : ℕ) → IsFaultOf (removes_moderator src id) (remove_moderator env id_of src id)
  unfolding remove_moderator is_moderator execute done_or_raise
  remove_moderator-fault src id s =
      ground (arith, nonempty_of_any (has_id id_of id) s.room.moderators)

  remove_banned-fault :
      (src id : ℕ) → IsFaultOf (removes_banned src id) (remove_banned env id_of src id)
  unfolding remove_banned is_moderator is_banned execute done_or_raise
  remove_banned-fault src id s = ground (arith, nonempty_of_any (has_id id_of id) s.room.banned)

  remove_invite-fault :
      (src id : ℕ) → IsFaultOf (removes_invite src id) (remove_invite env id_of src id)
  unfolding remove_invite is_moderator is_invited
  remove_invite-fault src id s = ground (arith, nonempty_of_any (has_id id_of id) s.room.invited)

  -- A call of a method of a room runs into undefined behaviour in two cases, and in no other: the
  -- creator of a room that has administrators removes one who is not among them, or an effective
  -- call that is to be stored is one of a persistent room that was loaded from the database, which
  -- has no pointer to the service of the rooms.
  pub call-fault :
      (c : RoomCall) (s : RoomState)
      → ((call env id_of c s).0 ≡ fault) ↔ (is_undefined id_of c s.room ≡ true)
  unfolding call
  call-fault (enters p password) s = enter_room-fault p password s
  call-fault (leaves p) s = leave_room-fault p s
  call-fault (kicks src p) s = kick_avatar-fault src p s
  call-fault (adds_administrator src p) s = add_administrator-fault src p s
  call-fault (adds_moderator src p) s = add_moderator-fault src p s
  call-fault (adds_banned src p) s = add_banned-fault src p s
  call-fault (adds_invite src p) s = add_invite-fault src p s
  call-fault (removes_administrator src id) s = remove_administrator-fault src id s
  call-fault (removes_moderator src id) s = remove_moderator-fault src id s
  call-fault (removes_banned src id) s = remove_banned-fault src id s
  call-fault (removes_invite src id) s = remove_invite-fault src id s
