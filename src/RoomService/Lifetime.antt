-- ===== src/RoomService/Lifetime.antt =====
-- A room of the service from its creation to its destruction, and what a load of the stored rooms
-- does to the rooms before.
use stationapiv.Prelude.{
  not, ◌||◌, ℕ, suc, ◌≡◌, refl, sym, ◌∙◌, ap, Bool, true, false, List, [], ◌∷◌, ◌++◌, append-nil,
  Option, none, some, Text, text_eq_refl, codes, any, get_elem?, length, ltb, ◌==◌, if◌then◌else◌,
  Bool-cases, inl, inr, arith, All, All-append,
}
use stationapiv.Exec.{Result, ok, raised, fault, Exec}
use stationapiv.Exec.Keeps.{Keeps}
use stationapiv.Storage.{Env}
use stationapiv.Room.{Ptr, ChatRoom, is_persistent, attribute_set, is_in_room}
use stationapiv.RoomService.{
  lone, others, RoomService, has_address, room_exists, find_room, after_found, erase_room,
  put_erased, take_room_id, keep_room, get_joined_rooms, joined_from, load_rooms_from_storage,
  create_room, destroy_room, Creator,
}
use stationapiv.RoomService.Outcomes.{create_room_outcome, load_rooms_from_storage-Keeps}

find_room_new :
    (address : Text) (rs : List ChatRoom) (r : ChatRoom)
    → room_exists address rs ≡ false
    → has_address address r ≡ true
    → find_room address (rs ++ r ∷ []) ≡ some (length rs)
unfolding find_room room_exists any
find_room_new address [] r n h = rw h refl
find_room_new address (x ∷ rs) r n h =
    rw (find_room_new address rs r (ground arith) h) (ground arith)

abbrev result_place : Result ℕ × RoomService → Option ℕ
result_place (ok p, s) = some p
result_place (raised e, s) = none
result_place (fault, s) = none

-- Whether a room may not stand in a list of rooms before the one with the id.
abbrev pub has_room_id : ℕ → ChatRoom → Bool
has_room_id id r = r.room_id == id

lone_short : (rs : List ChatRoom) → lone rs ≡ (if ltb (length rs) 2 then ok rs else fault)
lone_short [] = refl
lone_short (x ∷ []) = refl
lone_short (x ∷ (y ∷ ys)) =
    let many : ltb (suc (suc (length ys))) 2 ≡ false = ground arith in rw many refl

-- Whether the rooms after one with the id leave no trace of it.
abbrev pub is_clean : ℕ → List ChatRoom → Bool
is_clean id after = ltb (length after) 2 || not (others id after)

after_found_clean :
    (id : ℕ) (rs : List ChatRoom) → after_found id rs ≡ (if is_clean id rs then ok rs else fault)
unfolding after_found
after_found_clean id rs = elim (Bool-cases (others id rs)) [
  | inl e ↦ elim (Bool-cases (ltb (length rs) 2)) [
    | inl f ↦ rw (e, lone_short rs, f) refl
    | inr f ↦ rw (e, lone_short rs, f) refl
  ]
  | inr e ↦ elim (Bool-cases (ltb (length rs) 2)) [
    | inl f ↦ rw (e, f) refl
    | inr f ↦ rw (e, f) refl
  ]
]

erase_room_at :
    (before after : List ChatRoom) (r : ChatRoom)
    → any (has_room_id r.room_id) before ≡ false
    → erase_room r.room_id (before ++ r ∷ after)
      ≡ (if is_clean r.room_id after then ok (before ++ after) else fault)
unfolding erase_room any
erase_room_at [] after r h =
    let e : r.room_id == r.room_id ≡ true = ground arith in rw e (after_found_clean r.room_id after)
erase_room_at (b ∷ before) after r h =
    let other : b.room_id == r.room_id ≡ false = ground arith in
    rw (other, erase_room_at before after r (ground arith))
      (elim (Bool-cases (is_clean r.room_id after)) [ inl e ↦ rw e refl | inr e ↦ rw e refl ])

get_elem?_at :
    (before after : List ChatRoom) (r : ChatRoom)
    → get_elem? (before ++ r ∷ after) (length before) ≡ some r
get_elem?_at [] after r = refl
get_elem?_at (b ∷ before) after r = get_elem?_at before after r

module _ (env : Env) where
  -- The destruction of a room that is not persistent takes that room away and no other, if at
  -- most one room stands after it, or none with another id, and none before it has its id. Else,
  -- with two rooms or more after it and one of another id among them, it counts as undefined
  -- behaviour: the test of the second reads the id of the room already freed or, where a room of
  -- the same id stands before the other, a null pointer stays in the list.
  pub destroy_room_outcome :
      (before after : List ChatRoom) (r : ChatRoom) (s : RoomService)
      → s.rooms ≡ before ++ r ∷ after
      → is_persistent r ≡ false
      → any (has_room_id r.room_id) before ≡ false
      → destroy_room env (length before) s ≡ (
          if is_clean r.room_id after
          then (ok tt, record s { rooms = before ++ after })
          else (fault, s))
  unfolding destroy_room put_erased
  destroy_room_outcome before after r s here p h =
      let there : get_elem? s.rooms (length before) ≡ some r =
        ap (λ rs. get_elem? rs (length before)) here ∙ get_elem?_at before after r in
      let erased = ap (λ rs. erase_room r.room_id rs) here ∙ erase_room_at before after r h in
      rw (there, p, erased)
        (elim (Bool-cases (is_clean r.room_id after)) [ inl e ↦ rw e refl | inr e ↦ rw e refl ])

-- No avatar is in any room.
abbrev AreEmpty : RoomService → Type 0
AreEmpty s = All (λ (r : ChatRoom). r.avatars ≡ []) s.rooms

take_room_id-AreEmpty : Keeps AreEmpty take_room_id
unfolding take_room_id
take_room_id-AreEmpty s h = h

keep_room-AreEmpty : (r : ChatRoom) → r.avatars ≡ [] → Keeps AreEmpty (keep_room r)
unfolding keep_room
keep_room-AreEmpty r e s h = elim (Bool-cases (room_exists r.room_address s.rooms)) [
  | inl x ↦ rw x h
  | inr x ↦ rw x (All-append (λ (r : ChatRoom). r.avatars ≡ []) s.rooms (r ∷ []) h (e, tt))
]

joined_from_empty :
    (id_of : Ptr → ℕ) (id i : ℕ) (rs : List ChatRoom)
    → All (λ (r : ChatRoom). r.avatars ≡ []) rs
    → joined_from id_of id i rs ≡ []
unfolding joined_from is_in_room any
joined_from_empty id_of id i [] h = refl
joined_from_empty id_of id i (r ∷ rs) h = rw (h.0, joined_from_empty id_of id (suc i) rs h.1) refl

module _ (env : Env) where
  -- Whatever the rows and the outcome, after a load of the stored rooms no avatar is in any room:
  -- the rooms of every address are dropped first, with the avatars in them.
  pub get_joined_rooms-load_rooms_from_storage :
      (base_address : Text) (id_of : Ptr → ℕ) (id : ℕ) (s : RoomService)
      → get_joined_rooms id_of id (load_rooms_from_storage env base_address s).1.rooms ≡ []
  unfolding get_joined_rooms
  get_joined_rooms-load_rooms_from_storage base_address id_of id s =
      joined_from_empty id_of id 0 (load_rooms_from_storage env base_address s).1.rooms (
        load_rooms_from_storage-Keeps env AreEmpty base_address s (λ t h q. q) take_room_id-AreEmpty
          keep_room-AreEmpty tt)

  module _ (room_name room_topic room_password : Text) (attributes max_size : ℕ)
      (room_address : Text) where
    abbrev create_by : Option Creator → Exec RoomService ℕ
    create_by creator =
        create_room env creator room_name room_topic room_password attributes max_size room_address

    abbrev full_address : Text
    full_address = room_address ++ codes "+" ++ room_name

    create_taken :
        (creator : Option Creator) (s : RoomService)
        → room_exists full_address s.rooms ≡ true
        → result_place (create_by creator s) ≡ none
    unfolding create_room
    create_taken creator s x = rw x refl

    create_null : (s : RoomService) → result_place (create_by none s) ≡ none
    unfolding create_room
    create_null s = elim (Bool-cases (room_exists full_address s.rooms)) [
      | inl x ↦ create_taken none s x
      | inr x ↦ rw x refl
    ]

    -- What a creation that returns has done
    abbrev Created : ℕ → RoomService → RoomService → Type 0
    Created p s t =
        (r : ChatRoom) × (room_exists full_address s.rooms ≡ false)
        × (p ≡ length s.rooms)
        × (t.rooms ≡ s.rooms ++ r ∷ [])
        × (r.room_address ≡ full_address)
        × (r.room_id ≡ s.next_room_id)
        × (r.room_attributes ≡ attributes)

    created :
        (creator : Option Creator) (p : ℕ) (s t : RoomService)
        → create_by creator s ≡ (ok p, t)
        → Created p s t
    created none p s t e =
        absurd (let bad : none ≡ some p = sym (create_null s) ∙ ap result_place e in cc)
    created (some c) p s t e = elim (Bool-cases (room_exists full_address s.rooms)) [
      | inl x ↦
          absurd
            (let bad : none ≡ some p = sym (create_taken (some c) s x) ∙ ap result_place e in cc)
      | inr x ↦
          let (r, h, same, address, id, attrs) =
            create_room_outcome env c room_name room_topic room_password attributes max_size
              room_address s x in
          let both = sym same ∙ e in
          let place : some (length s.rooms) ≡ some p = ap result_place both in
          (r, x, cc, sym (ap (λ y. y.1.rooms) both), address, id, attrs)
    ]

    -- A room that has been created is the one that its address finds.
    pub find_room-create_room :
        (creator : Option Creator) (p : ℕ) (s t : RoomService)
        → create_by creator s ≡ (ok p, t)
        → find_room full_address t.rooms ≡ some p
    find_room-create_room creator p s t e =
        let (r, free, place, rooms, address, id, attrs) = created creator p s t e in
        rw (rooms, place)
          (find_room_new full_address s.rooms r free (rw address (text_eq_refl full_address)))

    -- A room that has been created and is not persistent is destroyed without undefined behaviour,
    -- if no room had its number before, and the rooms are those from before its creation.
    pub destroy_room-create_room :
        (creator : Option Creator) (p : ℕ) (s t : RoomService)
        → create_by creator s ≡ (ok p, t)
        → attribute_set attributes 4 ≡ false
        → any (has_room_id s.next_room_id) s.rooms ≡ false
        → destroy_room env p t ≡ (ok tt, record t { rooms = s.rooms })
    unfolding is_persistent
    destroy_room-create_room creator p s t e transient new =
        let (r, free, place, rooms, address, id, attrs) = created creator p s t e in
        rw place (
          destroy_room_outcome env s.rooms [] r t rooms (rw attrs transient) (rw id new)
          ∙ ap (λ (rs : List ChatRoom). (ok tt, record t { rooms = rs })) (append-nil s.rooms))
