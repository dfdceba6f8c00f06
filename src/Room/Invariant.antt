-- ===== src/Room/Invariant.antt =====
-- No list of a room names an avatar id twice, whatever methods of `ChatRoom` are called. This is
-- what makes the one-iterator `erase` of ChatRoom.cpp exact.
use stationapiv.Prelude.{
  ℕ, ◌≤◌, ◌≡◌, ◌++◌, true, false, List, [], ◌∷◌, any, count, erase_removed, erase_removed-eq-reject,
  count-append, count_zero, count-reject, Bool-cases, inl, inr, arith,
}
use stationapiv.Storage.{Env}
use stationapiv.Room.{Ptr, ChatRoom, has_id}
use stationapiv.Room.Methods.{RoomState}
use stationapiv.Room.Calls.{
  RoomCall, enters, leaves, kicks, adds_administrator, adds_moderator, adds_banned, adds_invite,
  removes_administrator, removes_moderator, removes_banned, removes_invite, Role, list_of,
  with_list, same_role, list_of-with_list, Change, joins, drops, call, change_of, apply_change,
  holds, is_effective,
}
use stationapiv.Room.Effect.{room-call}

module _ (id_of : Ptr → ℕ) where
  -- No id stands twice.
  abbrev pub Unique : List Ptr → Type 0
  Unique xs = (id : ℕ) → count (has_id id_of id) xs ≤ 1

  pub Unique-append :
      (xs : List Ptr) (p : Ptr)
      → any (has_id id_of (id_of p)) xs ≡ false
      → Unique xs
      → Unique (xs ++ p ∷ [])
  unfolding count
  Unique-append xs p new u id =
      ground
        (arith, count-append (has_id id_of id) xs (p ∷ []), u id, count_zero (has_id id_of id) xs)

  pub Unique-erase :
      (xs : List Ptr) (i : ℕ) → Unique xs → Unique (erase_removed (has_id id_of i) xs)
  Unique-erase xs i u id =
      rw (erase_removed-eq-reject (has_id id_of i) xs (u i))
        (omega (arith, count-reject (has_id id_of i) (has_id id_of id) xs, u id))

  abbrev pub IsValid : ChatRoom → Type 0
  IsValid r = (role : Role) → Unique (list_of role r)

  -- What a change asks of the room: a role is only given to an id that has it not.
  abbrev pub Fits : Change → ChatRoom → Type 0
  Fits (joins role p) r = holds id_of role r (id_of p) ≡ false
  Fits (drops role id) r = holds id_of role r id ≡ true

  pub is_effective-Fits :
      (c : RoomCall) (r : ChatRoom) → is_effective id_of c r ≡ true → Fits (change_of id_of c) r
  is_effective-Fits (enters p password) r h = ground arith
  is_effective-Fits (leaves p) r h = h
  is_effective-Fits (kicks src p) r h = ground arith
  is_effective-Fits (adds_administrator src p) r h = ground arith
  is_effective-Fits (adds_moderator src p) r h = ground arith
  is_effective-Fits (adds_banned src p) r h = ground arith
  is_effective-Fits (adds_invite src p) r h = ground arith
  is_effective-Fits (removes_administrator src id) r h = ground arith
  is_effective-Fits (removes_moderator src id) r h = ground arith
  is_effective-Fits (removes_banned src id) r h = ground arith
  is_effective-Fits (removes_invite src id) r h = ground arith

  with_list-IsValid :
      (role : Role) (xs : List Ptr) (r : ChatRoom)
      → Unique xs
      → IsValid r
      → IsValid (with_list role xs r)
  with_list-IsValid role xs r u v q =
      rw (list_of-with_list q role xs r)
        (elim (Bool-cases (same_role role q)) [ inl e ↦ rw e u | inr e ↦ rw e (v q) ])

  apply_change-IsValid :
      (c : Change) (r : ChatRoom) → Fits c r → IsValid r → IsValid (apply_change id_of c r)
  apply_change-IsValid (joins role p) r f v =
      with_list-IsValid role _ r (Unique-append (list_of role r) p f (v role)) v
  apply_change-IsValid (drops role id) r f v =
      with_list-IsValid role _ r (Unique-erase (list_of role r) id (v role)) v

  -- Every call of a method of a room, effective or not and whatever the database answers, leaves a
  -- room in which no role names an id twice, if there was none before.
  pub call-IsValid :
      (env : Env) (c : RoomCall) (s : RoomState)
      → IsValid s.room
      → IsValid (call env id_of c s).1.room
  call-IsValid env c s v =
      rw (room-call env id_of c s) (elim (Bool-cases (is_effective id_of c s.room)) [
        | inl e ↦
            rw e (apply_change-IsValid (change_of id_of c) s.room (is_effective-Fits c s.room e) v)
        | inr e ↦ rw e v
      ])
