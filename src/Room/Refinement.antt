-- ===== src/Room/Refinement.antt =====
-- A room as five sets of avatar ids: what a call does to the vectors of ChatRoom.cpp is the
-- insertion or the removal of one id in one set.
use stationapiv.Prelude.{
  ℕ, ◌≡◌, refl, ap, ◌∙◌, ◌++◌, Bool, true, false, ◌&&◌, List, [], ◌∷◌, any, reject, erase_removed,
  erase_removed-eq-reject, any-append, ◌==◌, Bool-cases, inl, inr, arith, if◌then◌else◌,
}
use stationapiv.Storage.{Env}
use stationapiv.Room.{Ptr, ChatRoom, has_id}
use stationapiv.Room.Methods.{RoomState}
use stationapiv.Room.Calls.{
  RoomCall, Role, member, administrator, moderator, ban, invite, list_of, with_list, same_role,
  list_of-with_list, Change, joins, drops, call, change_of, apply_change, holds, is_effective,
}
use stationapiv.Room.Effect.{room-call}
use stationapiv.Room.Invariant.{Unique, IsValid, is_effective-Fits, Unique-append}

same_list : (role q : Role) (r : ChatRoom) → same_role role q ≡ true → list_of role r ≡ list_of q r
same_list member member r h = refl
same_list administrator administrator r h = refl
same_list moderator moderator r h = refl
same_list ban ban r h = refl
same_list invite invite r h = refl
same_list _ _ r h = ground arith

module _ (id_of : Ptr → ℕ) where
  -- The set view of a change: whether `id` is in the set of `q` afterwards, if it was `old`.
  abbrev pub set_after : Change → Role → ℕ → Bool → Bool
  set_after (joins role p) q id old = if same_role role q && id_of p == id then true else old
  set_after (drops role i) q id old = if same_role role q && i == id then false else old

  any-reject_id :
      (i j : ℕ) (xs : List Ptr)
      → any (has_id id_of j) (reject (has_id id_of i) xs)
        ≡ (if i == j then false else any (has_id id_of j) xs)
  unfolding any reject
  any-reject_id i j [] = ground arith
  any-reject_id i j (x ∷ xs) = ground (arith, any-reject_id i j xs)

  any-add_id :
      (p : Ptr) (j : ℕ) (xs : List Ptr)
      → any (has_id id_of j) (xs ++ p ∷ [])
        ≡ (if id_of p == j then true else any (has_id id_of j) xs)
  unfolding any
  any-add_id p j xs = ground (arith, any-append (has_id id_of j) xs (p ∷ []))

  apply_change-holds :
      (c : Change) (r : ChatRoom) (q : Role) (id : ℕ)
      → IsValid id_of r
      → holds id_of q (apply_change id_of c r) id ≡ set_after c q id (holds id_of q r id)
  apply_change-holds (joins role p) r q id v =
      rw (list_of-with_list q role (list_of role r ++ p ∷ []) r)
        (elim (Bool-cases (same_role role q)) [
          | inl e ↦ rw (e, any-add_id p id (list_of role r), same_list role q r e)
          | inr e ↦ rw e
        ])
  apply_change-holds (drops role i) r q id v =
      rw
        (
          list_of-with_list q role (erase_removed (has_id id_of i) (list_of role r)) r,
          erase_removed-eq-reject (has_id id_of i) (list_of role r) (v role i),
        )
        (elim (Bool-cases (same_role role q)) [
          | inl e ↦ rw (e, any-reject_id i id (list_of role r), same_list role q r e)
          | inr e ↦ rw e
        ])

  -- After a call of a method each of the five sets of a valid room, of members, administrators,
  -- moderators, bans and invitations, is what it was, but for the one id of an effective call,
  -- which enters or leaves the one set that the call is about.
  pub call-refines :
      (env : Env) (c : RoomCall) (s : RoomState) (q : Role) (id : ℕ)
      → IsValid id_of s.room
      → holds id_of q (call env id_of c s).1.room id ≡ (
          if is_effective id_of c s.room
          then set_after (change_of id_of c) q id (holds id_of q s.room id)
          else holds id_of q s.room id)
  call-refines env c s q id v =
      rw (room-call env id_of c s) (elim (Bool-cases (is_effective id_of c s.room)) [
        | inl e ↦ rw e (apply_change-holds (change_of id_of c) s.room q id v)
        | inr e ↦ rw e
      ])

  reject-add :
      (p : Ptr) (xs : List Ptr)
      → any (has_id id_of (id_of p)) xs ≡ false
      → reject (has_id id_of (id_of p)) (xs ++ p ∷ []) ≡ xs
  unfolding any reject
  reject-add p [] h = ground arith
  reject-add p (x ∷ xs) h = ground (arith, reject-add p xs)

  erase-add :
      (p : Ptr) (xs : List Ptr)
      → Unique id_of xs
      → any (has_id id_of (id_of p)) xs ≡ false
      → erase_removed (has_id id_of (id_of p)) (xs ++ p ∷ []) ≡ xs
  erase-add p xs u h =
      erase_removed-eq-reject (has_id id_of (id_of p)) (xs ++ p ∷ [])
        (Unique-append id_of xs p h u (id_of p))
      ∙ reject-add p xs h

  with_list_twice :
      (role : Role) (xs : List Ptr) (r : ChatRoom)
      → with_list role (list_of role r) (with_list role xs r) ≡ r
  with_list_twice member xs r = refl
  with_list_twice administrator xs r = refl
  with_list_twice moderator xs r = refl
  with_list_twice ban xs r = refl
  with_list_twice invite xs r = refl

  undone :
      (role : Role) (p : Ptr) (r : ChatRoom)
      → IsValid id_of r
      → holds id_of role r (id_of p) ≡ false
      → apply_change id_of (drops role (id_of p)) (apply_change id_of (joins role p) r) ≡ r
  undone member p r v h = rw (erase-add p r.avatars (v member) h)
  undone administrator p r v h = rw (erase-add p r.administrators (v administrator) h)
  undone moderator p r v h = rw (erase-add p r.moderators (v moderator) h)
  undone ban p r v h = rw (erase-add p r.banned (v ban) h)
  undone invite p r v h = rw (erase-add p r.invited (v invite) h)

  -- A role given to an avatar of a valid room and taken from its id again, by calls that are both
  -- effective, leaves the room as it was, the order of the lists included.
  pub call-call_undone :
      (env : Env) (c d : RoomCall) (role : Role) (p : Ptr) (s : RoomState)
      → IsValid id_of s.room
      → change_of id_of c ≡ joins role p
      → change_of id_of d ≡ drops role (id_of p)
      → is_effective id_of c s.room ≡ true
      → is_effective id_of d (call env id_of c s).1.room ≡ true
      → (call env id_of d (call env id_of c s).1).1.room ≡ s.room
  call-call_undone env c d role p s v cj dd ec ed =
      room-call env id_of d (call env id_of c s).1
      ∙ rw (ed, dd)
          (ap (apply_change id_of (drops role (id_of p))) first
            ∙ undone role p s.room v (rw cj at (is_effective-Fits id_of c s.room ec)))
    where
      first : (call env id_of c s).1.room ≡ apply_change id_of (joins role p) s.room
      first = room-call env id_of c s ∙ rw (ec, cj)
