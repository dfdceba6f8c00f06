-- ===== src/RoomService/Outcomes.antt =====
-- What a load and a creation of rooms leave behind.
use stationapiv.Prelude.{
  ◌∙◌, ℕ, ◌+◌, ◌%◌, ◌^◌, ◌≡◌, refl, sym, ap, Bool, false, List, [], ◌∷◌, ◌++◌, some, Text, codes,
  length, Bool-cases, inl, inr,
}
use stationapiv.Exec.{pure, Result, ok, raised, fault, Exec, ◌>>=◌}
use stationapiv.Exec.Keeps.{
  Keeps, bind-Keeps, reads-Keeps, Returns, bind-Returns, bind_Returns-Keeps,
}
use stationapiv.Storage.{
  column_int, column_int_state, Env, History, Row, column_text, column_text_state, execute,
  statement, persist_new_room,
}
use stationapiv.Room.{Ptr, ChatRoom, chat_room, is_persistent}
use stationapiv.RoomService.{
  room_values, RoomService, room_exists, room_of_row, take_room_id, keep_room, load_row, load_rows,
  query_rooms, on_history, stored_room, persist_room, load_rooms_from_storage, create_room, Creator,
}

then_text-Keeps :
    {A : Type 0} (P : RoomService → Type 0) (signed : Bool) (row : Row) (i : ℕ)
    (f : Text → Exec RoomService A)
    → ((t : Text) → Keeps P (f t))
    → Keeps P (column_text signed row i >>= f)
then_text-Keeps P signed row i f =
    bind-Keeps P (column_text signed row i) f
      (reads-Keeps P (column_text signed row i) (column_text_state signed row i))

then_int-Keeps :
    {A : Type 0} (P : RoomService → Type 0) (row : Row) (i : ℕ) (f : ℕ → Exec RoomService A)
    → ((n : ℕ) → Keeps P (f n))
    → Keeps P (column_int row i >>= f)
then_int-Keeps P row i f =
    bind-Keeps P (column_int row i) f (reads-Keeps P (column_int row i) (column_int_state row i))

pub room_of_row-Keeps :
    (P : RoomService → Type 0) (signed : Bool) (id : ℕ) (row : Row)
    → Keeps P (room_of_row signed id row)
unfolding room_of_row
room_of_row-Keeps P signed id row = then_int-Keeps P row 0 _ (λ x0. then_int-Keeps P row 1 _ (λ x1.
    then_text-Keeps P signed row 2 _ (λ x2. then_text-Keeps P signed row 3 _ (λ x3.
      then_text-Keeps P signed row 4 _ (λ x4. then_text-Keeps P signed row 5 _ (λ x5.
        then_text-Keeps P signed row 6 _ (λ x6. then_text-Keeps P signed row 7 _ (λ x7.
          then_text-Keeps P signed row 8 _ (λ x8. then_int-Keeps P row 9 _ (λ x9.
            then_int-Keeps P row 10 _ (λ x10. then_int-Keeps P row 11 _ (λ x11.
              then_int-Keeps P row 12 _
                (λ x12. then_int-Keeps P row 13 _ (λ x13. (λ s p. p)))))))))))))))

then_int-Returns :
    {A : Type 0} (Q : A → Type 0) (row : Row) (i : ℕ) (f : ℕ → Exec RoomService A)
    → ((n : ℕ) → Returns Q (f n))
    → Returns Q (column_int row i >>= f)
then_int-Returns Q row i f = bind-Returns Q (column_int row i) f

then_text-Returns :
    {A : Type 0} (Q : A → Type 0) (signed : Bool) (row : Row) (i : ℕ)
    (f : Text → Exec RoomService A)
    → ((t : Text) → Returns Q (f t))
    → Returns Q (column_text signed row i >>= f)
then_text-Returns Q signed row i f = bind-Returns Q (column_text signed row i) f

abbrev avatars_of : Result ChatRoom → List Ptr
avatars_of (ok r) = r.avatars
avatars_of (raised e) = []
avatars_of fault = []

empty-Returns :
    (r : ChatRoom)
    → r.avatars ≡ []
    → Returns {S = RoomService} (λ (r : ChatRoom). r.avatars ≡ []) (pure r)
empty-Returns r h s q e = sym (ap avatars_of e) ∙ h

room_of_row_empty :
    (signed : Bool) (id : ℕ) (row : Row)
    → Returns {S = RoomService} (λ (r : ChatRoom). r.avatars ≡ []) (room_of_row signed id row)
unfolding room_of_row
room_of_row_empty signed id row =
    search (then_int-Returns _ row, then_text-Returns _ signed row, empty-Returns) depth 20

-- A load keeps what the numbering and the check of the address keep.
pub load_rows-Keeps :
    (P : RoomService → Type 0) (signed : Bool) (rows : List Row)
    → Keeps P take_room_id
    → ((r : ChatRoom) → r.avatars ≡ [] → Keeps P (keep_room r))
    → Keeps P (load_rows signed rows)
unfolding load_rows load_row
load_rows-Keeps P signed [] h k s p = p
load_rows-Keeps P signed (row ∷ rest) h k s p =
    bind-Keeps P (load_row signed row) (λ _. load_rows signed rest)
      (bind-Keeps P take_room_id (λ id. room_of_row signed id row >>= keep_room) h
        (λ id.
          bind_Returns-Keeps P (λ (r : ChatRoom). r.avatars ≡ []) (room_of_row signed id row)
            keep_room (room_of_row-Keeps P signed id row) (room_of_row_empty signed id row) k))
      (λ _. load_rows-Keeps P signed rest h k) s p

stored_room_fields :
    (r : ChatRoom) (o : Result ℕ)
    → ((stored_room r o).1.room_address ≡ r.room_address)
      × ((stored_room r o).1.room_id ≡ r.room_id)
      × ((stored_room r o).1.room_attributes ≡ r.room_attributes)
unfolding stored_room
stored_room_fields r (ok rowid) = (refl, refl, refl)
stored_room_fields r (raised e) = (refl, refl, refl)
stored_room_fields r fault = (refl, refl, refl)

module _ (env : Env) where
  pub load_rooms_from_storage-Keeps :
      (P : RoomService → Type 0) (base_address : Text) (s : RoomService)
      → ((t : RoomService) (h : History) → P t → P (record t { history = h }))
      → Keeps P take_room_id
      → ((r : ChatRoom) → r.avatars ≡ [] → Keeps P (keep_room r))
      → P (record s { rooms = [] })
      → P (load_rooms_from_storage env base_address s).1
  unfolding load_rooms_from_storage
  load_rooms_from_storage-Keeps P base_address s free h k p =
      bind-Keeps P (on_history env (query_rooms env base_address)) (load_rows env.char_is_signed)
        (λ t q. free t _ q) (λ found. load_rows-Keeps P env.char_is_signed found h k)
        (record s { rooms = [] }) p

  -- What a creation comes to where the address is free and the creator is not null
  pub create_room_outcome :
      (c : Creator) (room_name room_topic room_password : Text) (attributes max_size : ℕ)
      (room_address : Text) (s : RoomService)
      → room_exists (room_address ++ codes "+" ++ room_name) s.rooms ≡ false
      → (r : ChatRoom) × (h : History) × (create_room env
            (some c)
            room_name
            room_topic
            room_password
            attributes
            max_size
            room_address
            s
          ≡ (
            ok (length s.rooms),
            record {
              rooms = s.rooms ++ r ∷ [];
              next_room_id = (s.next_room_id + 1) % 2 ^ 32;
              history = h;
            },
          ))
        × (r.room_address ≡ room_address ++ codes "+" ++ room_name)
        × (r.room_id ≡ s.next_room_id)
        × (r.room_attributes ≡ attributes)
  unfolding create_room take_room_id chat_room persist_room
  create_room_outcome c room_name room_topic room_password attributes max_size room_address s e =
      let r =
        chat_room s.next_room_id c.ptr c.name c.address c.id room_name room_topic room_password
          attributes max_size room_address in
      let sent = execute env (statement persist_new_room (room_values r)) s.history in
      elim (Bool-cases (is_persistent r)) [
        | inl p ↦
            let (address, id, attrs) = stored_room_fields r sent.0 in
            ((stored_room r sent.0).1, sent.1, rw (e, p) refl, address, id, attrs)
        | inr p ↦ (r, s.history, rw (e, p) refl, refl, refl, refl)
      ]
