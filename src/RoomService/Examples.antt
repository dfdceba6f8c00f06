-- ===== src/RoomService/Examples.antt =====
-- Rooms of a service at work.
use stationapiv.Prelude.{
  ℕ, ◌≡◌, refl, true, List, [], ◌∷◌, ◌++◌, some, Text, codes, text_eq, any, count, arith,
}
use stationapiv.Exec.{ok, fault}
use stationapiv.Storage.{no_website, Env, rows}
use stationapiv.Room.{ChatRoom, chat_room, is_persistent}
use stationapiv.RoomService.{
  RoomService, Creator, room_exists, find_room, get_joined_rooms, load_rooms_from_storage,
  create_room, destroy_room, take_room_id,
}
use stationapiv.RoomService.Addresses.{
  IsDistinct, RoomServiceCall, loads, creates, destroys, serve_calls, serve_calls-IsDistinct,
}
use stationapiv.RoomService.Lifetime.{
  find_room-create_room, destroy_room-create_room, destroy_room_outcome,
  get_joined_rooms-load_rooms_from_storage,
}

-- A database without rows
abbrev empty_env : Env
empty_env = record {
  answer = λ h. rows [];
  char_is_signed = true;
  unix_time = 0;
  put_time = λ t. [];
  website = no_website;
}

abbrev ann : Creator
ann = record { ptr = 1; name = codes "ann"; address = codes "SWG"; id = 100 }

abbrev room_named : ℕ → Text → ChatRoom
room_named id name = chat_room id 1 (codes "ann") (codes "SWG") 100 name [] [] 0 10 (codes "SWG")

abbrev service_of : List ChatRoom → ℕ → RoomService
service_of rs next = record { rooms = rs; next_room_id = next; history = [] }

abbrev two_rooms : List ChatRoom
two_rooms = room_named 0 (codes "a") ∷ room_named 1 (codes "b") ∷ []

abbrev three_rooms : List ChatRoom
three_rooms = two_rooms ++ room_named 2 (codes "c") ∷ []

find_room-create_room_example : find_room (codes "SWG+c") three_rooms ≡ some 2
unfolding create_room room_exists any text_eq chat_room is_persistent take_room_id
find_room-create_room_example =
    find_room-create_room empty_env (codes "c") [] [] 0 10 (codes "SWG") (some ann) 2
      (service_of two_rooms 2) (service_of three_rooms 3) refl

destroy_room-create_room_example :
    destroy_room empty_env 2 (service_of three_rooms 3) ≡ (ok tt, service_of two_rooms 3)
unfolding create_room room_exists any text_eq chat_room is_persistent take_room_id
destroy_room-create_room_example =
    destroy_room-create_room empty_env (codes "c") [] [] 0 10 (codes "SWG") (some ann) 2
      (service_of two_rooms 2) (service_of three_rooms 3) refl refl refl

-- The first of three rooms
destroy_room_outcome_example :
    destroy_room empty_env 0 (service_of three_rooms 3) ≡ (fault, service_of three_rooms 3)
unfolding is_persistent chat_room any
destroy_room_outcome_example =
    destroy_room_outcome empty_env [] (room_named 1 (codes "b") ∷ room_named 2 (codes "c") ∷ [])
      (room_named 0 (codes "a")) (service_of three_rooms 3) refl refl refl

get_joined_rooms-load_rooms_from_storage_example :
    get_joined_rooms
      (λ p. 100)
      100
      (load_rooms_from_storage empty_env
        (codes "SWG")
        (service_of (record (room_named 0 (codes "a")) { avatars = 1 ∷ [] } ∷ []) 1)).1.rooms
    ≡ []
get_joined_rooms-load_rooms_from_storage_example =
    get_joined_rooms-load_rooms_from_storage empty_env (codes "SWG") (λ p. 100) 100
      (service_of (record (room_named 0 (codes "a")) { avatars = 1 ∷ [] } ∷ []) 1)

no_rooms-IsDistinct : IsDistinct (service_of [] 0)
unfolding count
no_rooms-IsDistinct address = omega arith

abbrev some_calls : List RoomServiceCall
some_calls =
    creates (some ann) (codes "a") [] [] 0 10 (codes "SWG")
    ∷ creates (some ann) (codes "a") [] [] 0 10 (codes "SWG")
    ∷ destroys 0
    ∷ loads (codes "SWG")
    ∷ []

serve_calls-IsDistinct_example : IsDistinct (serve_calls empty_env some_calls (service_of [] 0))
serve_calls-IsDistinct_example =
    serve_calls-IsDistinct empty_env some_calls (service_of [] 0) no_rooms-IsDistinct
