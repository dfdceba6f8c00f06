-- ===== src/RoomService.antt =====
-- src/stationchat/ChatRoomService.cpp: the rooms by address, and their rows in the database. The
-- statements for moderators and bans are in the model of the rooms.
pub mod Outcomes
pub mod Addresses
pub mod Lifetime
mod Examples
use stationapiv.Prelude.{
  ℕ, zero, suc, ◌+◌, ◌%◌, ◌^◌, Bool, true, false, not, ◌&&◌, List, [], ◌∷◌, ◌++◌, Option, none,
  some, Text, text_eq, codes, any, get_elem?, set, length, ◌==◌, if◌then◌else◌,
}
use stationapiv.Enums.ResultCode.{ChatResultCode, success, dbfail, room_alreadyexists}
use stationapiv.Exec.{
  Result, ok, raised, fault, standard, Exec, pure, raise, undefined, gets, modify, guard, when,
  zoom, ◌>>=◌, ◌>>◌,
}
use stationapiv.Storage.{
  Env, History, Sql, Value, Row, Statement, Answer, int, rows_or_raise, done_or_raise, statement,
  execute, query, wide, column_int, column_text, load_rooms, persist_new_room, delete_room,
}
use stationapiv.Room.{Ptr, ChatRoom, chat_room, is_private, is_persistent, is_in_room}

-- A `ChatRoom*` is the place of the room in `rooms`. `next_room_id` is a `uint32_t`.
pub record RoomService : Type 0 where
  pub rooms : List ChatRoom
  pub next_room_id : ℕ
  pub history : History

abbrev pub has_address : Text → ChatRoom → Bool
has_address address r = text_eq address r.room_address

unfoldable pub room_exists : Text → List ChatRoom → Bool
room_exists address rs = any (has_address address) rs

-- `GetRoom`
unfoldable pub find_room : Text → List ChatRoom → Option ℕ
find_room address [] = none
find_room address (r ∷ rs) =
    let rest = find_room address rs in
    if has_address address r then some 0 else elim rest [ none ↦ none | some i ↦ some (suc i) ]

-- `address.compare(0, start.length(), start) == 0`
unfoldable pub starts_with : Text → Text → Bool
starts_with [] address = true
starts_with (c ∷ start) [] = false
starts_with (c ∷ start) (d ∷ address) = c == d && starts_with start address

-- The filter of a request is not used.
unfoldable pub get_room_summaries : Text → Text → List ChatRoom → List ChatRoom
unfolding starts_with is_private
get_room_summaries start filter [] = []
get_room_summaries start filter (r ∷ rs) =
    let rest = get_room_summaries start filter rs in
    if starts_with start r.room_address && not (is_private r) then r ∷ rest else rest

-- The places of the rooms that an avatar is in, from `i` on.
unfoldable pub joined_from : (Ptr → ℕ) → ℕ → ℕ → List ChatRoom → List ℕ
unfolding is_in_room
joined_from id_of id i [] = []
joined_from id_of id i (r ∷ rs) =
    let rest = joined_from id_of id (suc i) rs in if is_in_room id_of r id then i ∷ rest else rest

unfoldable pub get_joined_rooms : (Ptr → ℕ) → ℕ → List ChatRoom → List ℕ
unfolding joined_from
get_joined_rooms id_of id rs = joined_from id_of id 0 rs

-- What a creator gives to a room: its address, name, address and id.
pub record Creator : Type 0 where
  pub ptr : Ptr
  pub name : Text
  pub address : Text
  pub id : ℕ

-- `rooms_.erase(std::remove_if(…))` with the id read through the room that is destroyed, from the
-- place of that room on. Rooms after it with the same id stay. The first other one is moved over a
-- place, which destroys the room where that place is its own; the test of a room after that reads
-- it again. With a room of the same id between, a null pointer would stay behind, which the next
-- search dereferences; this counts as undefined here already.
abbrev pub lone : List ChatRoom → Result (List ChatRoom)
lone [] = ok []
lone (x ∷ []) = ok (x ∷ [])
lone (x ∷ (y ∷ ys)) = fault

abbrev pub others : ℕ → List ChatRoom → Bool
others id rs = any (λ (r : ChatRoom). not (r.room_id == id)) rs

unfoldable pub after_found : ℕ → List ChatRoom → Result (List ChatRoom)
after_found id rs = if others id rs then lone rs else ok rs

unfoldable pub erase_room : ℕ → List ChatRoom → Result (List ChatRoom)
unfolding after_found
erase_room id [] = fault
erase_room id (r ∷ rs) =
    let rest = erase_room id rs in
    if r.room_id == id
    then after_found id rs
    else elim rest [ ok kept ↦ ok (r ∷ kept) | raised e ↦ raised e | fault ↦ fault ]

-- The room of a row, with its number. Its `roomService_` stays null.
unfoldable pub room_of_row {ℓ} : {S : Type ℓ} → Bool → ℕ → Row → Exec S ChatRoom
unfolding column_int
room_of_row signed id row = do
  db_id ← column_int row 0
  creator_id ← column_int row 1
  creator_name ← column_text signed row 2
  creator_address ← column_text signed row 3
  room_name ← column_text signed row 4
  room_topic ← column_text signed row 5
  room_password ← column_text signed row 6
  room_prefix ← column_text signed row 7
  room_address ← column_text signed row 8
  room_attributes ← column_int row 9
  max_room_size ← column_int row 10
  room_message_id ← column_int row 11
  create_time ← column_int row 12
  node_level ← column_int row 13
  pure record {
    has_room_service = false;
    creator_name = creator_name;
    creator_address = creator_address;
    room_name = room_name;
    room_topic = room_topic;
    room_password = room_password;
    room_prefix = room_prefix;
    room_address = room_address;
    creator_id = creator_id;
    room_attributes = room_attributes;
    max_room_size = max_room_size;
    room_id = id;
    create_time = create_time;
    node_level = node_level;
    room_message_id = room_message_id;
    db_id = db_id;
    avatars = [];
    administrators = [];
    moderators = [];
    temp_moderators = [];
    banned = [];
    invited = [];
    voice = [];
  }

-- `nextRoomId_++`
unfoldable pub take_room_id : Exec RoomService ℕ
take_room_id s = (ok s.next_room_id, record s { next_room_id = (s.next_room_id + 1) % 2 ^ 32 })

-- `if (!RoomExists(…)) { rooms_.emplace_back(…); }`
unfoldable pub keep_room : ChatRoom → Exec RoomService (Unit {0})
unfolding room_exists
keep_room r =
    modify (λ s.
      if room_exists r.room_address s.rooms then s else record s { rooms = s.rooms ++ r ∷ [] })

-- The body of the loop over the rows
unfoldable pub load_row : Bool → Row → Exec RoomService (Unit {0})
unfolding take_room_id keep_room room_of_row
load_row signed row = take_room_id >>= λ id. room_of_row signed id row >>= keep_room

unfoldable pub load_rows : Bool → List Row → Exec RoomService (Unit {0})
unfolding load_row
load_rows signed [] = pure tt
load_rows signed (row ∷ rest) = load_row signed row >> load_rows signed rest

-- The parameters of an INSERT of a room
abbrev pub room_values : ChatRoom → List Value
room_values r =
    int r.creator_id
    ∷ wide r.creator_name
    ∷ wide r.creator_address
    ∷ wide r.room_name
    ∷ wide r.room_topic
    ∷ wide r.room_password
    ∷ wide r.room_prefix
    ∷ wide r.room_address
    ∷ int r.room_attributes
    ∷ int r.max_room_size
    ∷ int r.room_message_id
    ∷ int r.create_time
    ∷ int r.node_level
    ∷ []

-- `room.dbId_ = …` where the INSERT succeeds
unfoldable pub stored_room : ChatRoom → Result ℕ → ChatResultCode × ChatRoom
stored_room r (ok rowid) = (success, record r { db_id = rowid % 2 ^ 32 })
stored_room r (raised e) = (dbfail, r)
stored_room r fault = (dbfail, r)

-- The vector after the erase
unfoldable pub put_erased : Result (List ChatRoom) → Exec RoomService (Unit {0})
put_erased (ok kept) s = (ok tt, record s { rooms = kept })
put_erased (raised e) s = (raised e, s)
put_erased fault s = (fault, s)

module _ (env : Env) where
  abbrev pub on_history : {A : Type 0} → Exec History A → Exec RoomService A
  on_history = zoom (λ s. s.history) (λ s h. record s { history = h })

  -- A failed prepare is a `std::runtime_error` here.
  unfoldable pub query_rooms : Text → Exec History (List Row)
  query_rooms base_address h =
      let r = query env (statement load_rooms (wide base_address ∷ [])) h in
      (elim r.0 [ ok rs ↦ ok rs | raised e ↦ raised standard | fault ↦ fault ], r.1)

  -- The rooms are cleared first.
  unfoldable pub load_rooms_from_storage : Text → Exec RoomService (Unit {0})
  unfolding load_rows query_rooms
  load_rooms_from_storage base_address =
      modify (λ s. record s { rooms = [] })
      >> (on_history (query_rooms base_address) >>= load_rows env.char_is_signed)

  -- The result code, and the room with its id in the database.
  unfoldable pub persist_room : ChatRoom → Exec History (ChatResultCode × ChatRoom)
  unfolding stored_room
  persist_room r h =
      let e = execute env (statement persist_new_room (room_values r)) h in
      (ok (stored_room r e.0), e.1)

  -- A null creator is dereferenced by the constructor of the room, after
  -- the check of the address. A failed INSERT is not reported.
  unfoldable pub create_room :
      Option Creator → Text → Text → Text → ℕ → ℕ → Text → Exec RoomService ℕ
  unfolding room_exists take_room_id chat_room is_persistent persist_room
  create_room creator room_name room_topic room_password attributes max_size room_address = do
    known ← gets (λ s. room_exists (room_address ++ codes "+" ++ room_name) s.rooms)
    guard (not known) room_alreadyexists
    id ← take_room_id
    c ← (λ s. (elim creator [ none ↦ fault | some c ↦ ok c ], s))
    let r =
        chat_room id c.ptr c.name c.address c.id room_name room_topic room_password attributes
          max_size room_address
    place ← gets (λ s. length s.rooms)
    stored ← (if is_persistent r then on_history (persist_room r) else pure (success, r))
    modify (λ s. record s { rooms = s.rooms ++ stored.1 ∷ [] })
    pure place

  unfoldable pub delete_room_row : ChatRoom → Exec RoomService (Unit {0})
  delete_room_row r = do
    on_history (execute env (statement delete_room (int r.db_id ∷ [])))
    pure tt

  unfoldable pub destroy_room : ℕ → Exec RoomService (Unit {0})
  unfolding is_persistent delete_room_row erase_room put_erased
  destroy_room place = do
    r ← (λ s. (elim (get_elem? s.rooms place) [ none ↦ fault | some r ↦ ok r ], s))
    when (is_persistent r) (delete_room_row r)
    (λ s. put_erased (erase_room r.room_id s.rooms) s)
