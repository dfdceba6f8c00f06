-- ===== src/RoomService/Addresses.antt =====
-- No two rooms have the same address.
use stationapiv.Prelude.{
  if◌then◌else◌, ℕ, ◌+◌, ◌≤◌, ◌≡◌, sym, false, List, [], ◌∷◌, ◌++◌, Option, none, some, Text,
  text_eq→eq, codes, count, count-append, count_zero, get_elem?, ◌==◌, Bool-cases, inl, inr, arith,
}
use mathlib.Core.Path.{subst}
use stationapiv.Exec.{Result, ok, raised, fault, pure, when, ◌>>◌}
use stationapiv.Exec.Keeps.{Keeps, bind-Keeps}
use stationapiv.Storage.{Env, execute, statement, delete_room, int}
use stationapiv.Room.{ChatRoom, is_persistent}
use stationapiv.RoomService.{
  lone, others, RoomService, has_address, room_exists, after_found, erase_room, put_erased,
  delete_room_row, take_room_id, keep_room, on_history, load_rooms_from_storage, create_room,
  destroy_room, Creator,
}
use stationapiv.RoomService.Outcomes.{load_rooms_from_storage-Keeps, create_room_outcome}

abbrev pub AreDistinct : List ChatRoom → Type 0
AreDistinct rs = (address : Text) → count (has_address address) rs ≤ 1

abbrev pub IsDistinct : RoomService → Type 0
IsDistinct s = AreDistinct s.rooms

pub append-AreDistinct :
    (rs : List ChatRoom) (r : ChatRoom)
    → room_exists r.room_address rs ≡ false
    → AreDistinct rs
    → AreDistinct (rs ++ r ∷ [])
unfolding count room_exists
append-AreDistinct rs r new d address = elim (Bool-cases (has_address address r)) [
  | inl e ↦
      let same : address ≡ r.room_address = text_eq→eq address r.room_address e in
      let none_yet : count (has_address address) rs ≡ 0 =
        subst (λ a. count (has_address a) rs ≡ 0) (sym same)
          (count_zero (has_address r.room_address) rs new) in
      ground (arith, count-append (has_address address) rs (r ∷ []), none_yet)
  | inr e ↦ ground (arith, count-append (has_address address) rs (r ∷ []), d address)
]

keep_room-IsDistinct : (r : ChatRoom) → Keeps IsDistinct (keep_room r)
unfolding keep_room
keep_room-IsDistinct r s d = elim (Bool-cases (room_exists r.room_address s.rooms)) [
  | inl e ↦ rw e d
  | inr e ↦ rw e (append-AreDistinct s.rooms r e d)
]

module _ (env : Env) where
  load_rooms_from_storage-IsDistinct :
      (base_address : Text) → Keeps IsDistinct (load_rooms_from_storage env base_address)
  unfolding take_room_id count
  load_rooms_from_storage-IsDistinct base_address s d =
      load_rooms_from_storage-Keeps env IsDistinct base_address s (λ t h q. q) (λ t q. q)
        (λ r e. keep_room-IsDistinct r) (λ address. omega arith)

  create_room-IsDistinct :
      (creator : Option Creator) (room_name room_topic room_password : Text)
      (attributes max_size : ℕ) (room_address : Text)
      → Keeps IsDistinct (
          create_room env creator room_name room_topic room_password attributes max_size
            room_address)
  unfolding create_room take_room_id
  create_room-IsDistinct none room_name room_topic room_password attributes max_size room_address s
        d =
      elim (Bool-cases (room_exists (room_address ++ codes "+" ++ room_name) s.rooms)) [
        | inl e ↦ rw (e, create_room) d
        | inr e ↦ rw (e, create_room) d
      ]
  create_room-IsDistinct (some c) room_name room_topic room_password attributes max_size
        room_address s d =
      elim (Bool-cases (room_exists (room_address ++ codes "+" ++ room_name) s.rooms)) [
        | inl e ↦ rw (e, create_room) d
        | inr e ↦
            let (r, h, same, address, id, attrs) =
              create_room_outcome env c room_name room_topic room_password attributes max_size
                room_address s e in
            rw same (append-AreDistinct s.rooms r (rw address e) d)
      ]

abbrev count_kept : Text → Result (List ChatRoom) → ℕ
count_kept address (ok rs) = count (has_address address) rs
count_kept address (raised e) = 0
count_kept address fault = 0

count_kept_cons :
    (address : Text) (r : ChatRoom) (o : Result (List ChatRoom)) (n : ℕ)
    → count_kept address o ≤ n
    → count_kept address (elim o as (λ x. Result (List ChatRoom)) [
      | ok kept ↦ ok (r ∷ kept)
      | raised e ↦ raised e
      | fault ↦ fault
    ])
      ≤ (if has_address address r then 1 else 0) + n
unfolding count
count_kept_cons address r (ok kept) n h = omega (arith, h)
count_kept_cons address r (raised e) n h = omega arith
count_kept_cons address r fault n h = omega arith

count_kept-lone :
    (address : Text) (rs : List ChatRoom)
    → count_kept address (lone rs) ≤ count (has_address address) rs
unfolding count
count_kept-lone address [] = omega arith
count_kept-lone address (x ∷ []) = omega arith
count_kept-lone address (x ∷ (y ∷ ys)) = omega arith

count_kept-after_found :
    (address : Text) (r : ChatRoom) (id : ℕ) (rs : List ChatRoom)
    → count_kept address (after_found id rs)
      ≤ (if has_address address r then 1 else 0) + count (has_address address) rs
unfolding after_found
count_kept-after_found address r id rs = elim (Bool-cases (others id rs)) [
  | inl e ↦ rw e (omega (arith, count_kept-lone address rs))
  | inr e ↦ rw e (omega arith)
]

count_kept-erase_room :
    (address : Text) (id : ℕ) (rs : List ChatRoom)
    → count_kept address (erase_room id rs) ≤ count (has_address address) rs
unfolding erase_room count
count_kept-erase_room address id [] = omega arith
count_kept-erase_room address id (r ∷ rs) = elim (Bool-cases (r.room_id == id)) [
  | inl e ↦ rw e (count_kept-after_found address r id rs)
  | inr e ↦
      rw e (count_kept_cons address r (erase_room id rs) _ (count_kept-erase_room address id rs))
]

put_erased-IsDistinct :
    (o : Result (List ChatRoom)) (s : RoomService)
    → ((address : Text) → count_kept address o ≤ count (has_address address) s.rooms)
    → IsDistinct s
    → IsDistinct (put_erased o s).1
unfolding put_erased
put_erased-IsDistinct (ok kept) s h d = λ address. omega (arith, h address, d address)
put_erased-IsDistinct (raised e) s h d = d
put_erased-IsDistinct fault s h d = d

module _ (env : Env) where
  delete_row-IsDistinct :
      (r : ChatRoom) → Keeps IsDistinct (when (is_persistent r) (delete_room_row env r))
  unfolding delete_room_row
  delete_row-IsDistinct r s d = elim (Bool-cases (is_persistent r)) [
    | inl e ↦ rw e (
        bind-Keeps IsDistinct
          (on_history env (execute env (statement delete_room (int r.db_id ∷ [])))) (λ _. pure tt)
          (λ s d. d) (λ x s d. d) s d)
    | inr e ↦ rw e d
  ]

  destroy_room-IsDistinct : (place : ℕ) → Keeps IsDistinct (destroy_room env place)
  unfolding destroy_room
  destroy_room-IsDistinct place s d =
      bind-Keeps IsDistinct
        (λ s. (
          elim (get_elem? s.rooms place) as (λ x. Result ChatRoom) [ none ↦ fault | some r ↦ ok r ],
          s,
        ))
        (λ r.
          when (is_persistent r) (delete_room_row env r)
          >> (λ s. put_erased (erase_room r.room_id s.rooms) s))
        (λ s d. d)
        (λ r.
          bind-Keeps IsDistinct (when (is_persistent r) (delete_room_row env r))
            (λ _ s. put_erased (erase_room r.room_id s.rooms) s) (delete_row-IsDistinct r)
            (λ x s d.
              put_erased-IsDistinct (erase_room r.room_id s.rooms) s
                (λ address. count_kept-erase_room address r.room_id s.rooms) d))
        s d

-- What the handlers call of the service
pub data RoomServiceCall : Type 0 where
  loads : Text → RoomServiceCall
  creates : Option Creator → Text → Text → Text → ℕ → ℕ → Text → RoomServiceCall
  destroys : ℕ → RoomServiceCall

module _ (env : Env) where
  -- A sequence of calls; an exception ends the call and not the service.
  unfoldable pub serve_calls : List RoomServiceCall → RoomService → RoomService
  serve_calls [] s = s
  serve_calls (loads base_address ∷ cs) s =
      serve_calls cs (load_rooms_from_storage env base_address s).1
  serve_calls (creates creator name topic password attributes max_size address ∷ cs) s =
      serve_calls cs (create_room env creator name topic password attributes max_size address s).1
  serve_calls (destroys place ∷ cs) s = serve_calls cs (destroy_room env place s).1

  -- Whatever the database answers, any sequence of loads, creations and destructions of rooms keeps
  -- the addresses of the rooms distinct.
  pub serve_calls-IsDistinct :
      (cs : List RoomServiceCall) (s : RoomService) → IsDistinct s → IsDistinct (serve_calls cs s)
  unfolding serve_calls
  serve_calls-IsDistinct [] s d = d
  serve_calls-IsDistinct (loads base_address ∷ cs) s d =
      serve_calls-IsDistinct cs _ (load_rooms_from_storage-IsDistinct env base_address s d)
  serve_calls-IsDistinct (creates creator name topic password attributes max_size address ∷ cs) s
        d =
      serve_calls-IsDistinct cs _
        (create_room-IsDistinct env creator name topic password attributes max_size address s d)
  serve_calls-IsDistinct (destroys place ∷ cs) s d =
      serve_calls-IsDistinct cs _ (destroy_room-IsDistinct env place s d)
