-- ===== src/Room/Access.antt =====
-- Who may change what in a room, what keeps an avatar out, and what reaches the database.
use stationapiv.Prelude.{
  Bool, ℕ, ◌≡◌, refl, sym, ◌∙◌, Bool-cases, any-append, text_eq, inl, inr, true, not, ◌&&◌, [], ◌∷◌,
  Text, ltb, length, any, arith, if◌then◌else◌,
}
use stationapiv.Enums.ResultCode.{room_privateroom, room_bannedavatar, room_alreadyinroom}
use stationapiv.Exec.{Result, ok, raised, chat_result}
use stationapiv.Storage.{Env}
use stationapiv.Room.{
  Ptr, ChatRoom, has_id, is_creator, is_private, is_in_room, is_moderator, is_banned, is_invited,
}
use stationapiv.Room.Methods.{
  RoomState, enter_room, kick_avatar, add_administrator, add_moderator, add_banned, add_invite,
  remove_administrator, remove_moderator, remove_banned, remove_invite,
}
use stationapiv.Room.Calls.{
  RoomCall, enters, leaves, kicks, adds_administrator, adds_moderator, adds_banned, adds_invite,
  removes_administrator, removes_moderator, removes_banned, removes_invite, call,
}

module _ (env : Env) (id_of : Ptr → ℕ) where
  -- The right that a call takes: none to enter or leave, the creator's for administrators and
  -- moderators, a moderator's for the rest.
  abbrev pub IsAuthorised : RoomCall → ChatRoom → Type 0
  IsAuthorised (enters p password) r = Unit
  IsAuthorised (leaves p) r = Unit
  IsAuthorised (kicks src p) r = is_moderator id_of r src ≡ true
  IsAuthorised (adds_administrator src p) r = is_creator r src ≡ true
  IsAuthorised (adds_moderator src p) r = is_creator r src ≡ true
  IsAuthorised (adds_banned src p) r = is_moderator id_of r src ≡ true
  IsAuthorised (adds_invite src p) r = is_moderator id_of r src ≡ true
  IsAuthorised (removes_administrator src id) r = is_creator r src ≡ true
  IsAuthorised (removes_moderator src id) r = is_creator r src ≡ true
  IsAuthorised (removes_banned src id) r = is_moderator id_of r src ≡ true
  IsAuthorised (removes_invite src id) r = is_moderator id_of r src ≡ true

  -- A call that is not authorised changes neither the room nor the database.
  pub call-IsAuthorised :
      (c : RoomCall) (s : RoomState) → ¬ IsAuthorised c s.room → (call env id_of c s).1 ≡ s
  unfolding call kick_avatar add_administrator add_moderator add_banned add_invite
      remove_administrator remove_moderator remove_banned remove_invite
  call-IsAuthorised (enters p password) s h = absurd (h tt)
  call-IsAuthorised (leaves p) s h = absurd (h tt)
  call-IsAuthorised (kicks src p) s h = ground arith
  call-IsAuthorised (adds_administrator src p) s h = ground arith
  call-IsAuthorised (adds_moderator src p) s h = ground arith
  call-IsAuthorised (adds_banned src p) s h = ground arith
  call-IsAuthorised (adds_invite src p) s h = ground arith
  call-IsAuthorised (removes_administrator src id) s h = ground arith
  call-IsAuthorised (removes_moderator src id) s h = ground arith
  call-IsAuthorised (removes_banned src id) s h = ground arith
  call-IsAuthorised (removes_invite src id) s h = ground arith

  is_banned-add_banned :
      (src : ℕ) (p : Ptr) (s : RoomState)
      → is_moderator id_of s.room src ≡ true
      → is_banned id_of (add_banned env id_of src p s).1.room (id_of p) ≡ true
  unfolding add_banned is_banned any
  is_banned-add_banned src p s h = elim (Bool-cases (any (has_id id_of (id_of p)) s.room.banned)) [
    | inl e ↦ ground (arith, any-append (has_id id_of (id_of p)) s.room.banned (p ∷ []))
    | inr e ↦ ground (arith, any-append (has_id id_of (id_of p)) s.room.banned (p ∷ []))
  ]

  abbrev pub is_wrong : Text → ChatRoom → Bool
  is_wrong password r = ltb 0 (length r.room_password) && not (text_eq r.room_password password)

  enter_room-is_banned :
      (p : Ptr) (password : Text) (t : RoomState)
      → is_banned id_of t.room (id_of p) ≡ true
      → enter_room env id_of p password t ≡ (
        raised (
            chat_result (if is_wrong password t.room then room_privateroom else room_bannedavatar)),
        t,
      )
  unfolding enter_room
  enter_room-is_banned p password t h = elim (Bool-cases (is_wrong password t.room)) [
    | inl e ↦ rw e refl
    | inr e ↦ rw (e, h) refl
  ]

  password-add_banned :
      (src : ℕ) (p : Ptr) (password : Text) (s : RoomState)
      → is_wrong password (add_banned env id_of src p s).1.room ≡ is_wrong password s.room
  unfolding add_banned
  password-add_banned src p password s = ground arith

  -- An avatar that a moderator has just banned does not enter: the room and the database stay as
  -- they are, and the exception is ROOM_PRIVATEROOM where the room has a password and the one given
  -- is another, else ROOM_BANNEDAVATAR.
  pub enter_room_banned :
      (src : ℕ) (p : Ptr) (password : Text) (s : RoomState)
      → is_moderator id_of s.room src ≡ true
      → let t : RoomState = (add_banned env id_of src p s).1 in
        enter_room env id_of p password t ≡ (
          raised (
              chat_result
                (if is_wrong password s.room then room_privateroom else room_bannedavatar)),
          t,
        )
  enter_room_banned src p password s h = rw (sym (password-add_banned src p password s)) (
      enter_room-is_banned p password (add_banned env id_of src p s).1
        (is_banned-add_banned src p s h))

  entry_result : ChatRoom → Ptr → Text → Result (Unit {0})
  entry_result r avatar password =
      if ltb 0 (length r.room_password) && not (text_eq r.room_password password)
      then raised (chat_result room_privateroom)
      else if is_banned id_of r (id_of avatar)
      then raised (chat_result room_bannedavatar)
      else if is_in_room id_of r (id_of avatar)
      then raised (chat_result room_alreadyinroom)
      else if is_private r
          && not (is_creator r (id_of avatar))
          && not (is_invited id_of r (id_of avatar))
      then raised (chat_result room_privateroom)
      else ok tt

  enter_room-entry_result :
      (p : Ptr) (password : Text) (s : RoomState)
      → (enter_room env id_of p password s).0 ≡ entry_result s.room p password
  unfolding enter_room entry_result
  enter_room-entry_result p password s = ground arith

  entry_result-max_room_size :
      (p : Ptr) (password : Text) (n : ℕ) (r : ChatRoom)
      → entry_result (record r { max_room_size = n }) p password ≡ entry_result r p password
  unfolding entry_result is_banned is_in_room is_invited is_private is_creator
  entry_result-max_room_size p password n r = refl

  -- The size limit of a room plays no part in whether an avatar may enter.
  pub enter_room-max_room_size :
      (p : Ptr) (password : Text) (n : ℕ) (s : RoomState)
      → (enter_room env id_of p password
          (record s { room = record s.room { max_room_size = n } })).0
        ≡ (enter_room env id_of p password s).0
  enter_room-max_room_size p password n s =
      enter_room-entry_result p password (record s { room = record s.room { max_room_size = n } })
      ∙ entry_result-max_room_size p password n s.room
      ∙ sym (enter_room-entry_result p password s)
