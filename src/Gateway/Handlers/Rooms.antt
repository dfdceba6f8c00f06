-- ===== src/Gateway/Handlers/Rooms.antt =====
-- The handlers of src/stationchat/protocol/Protocol.cpp for rooms.
use stationapiv.Prelude.{ℕ, Option, none, some, get_elem?, set}
use stationapiv.Enums.ResultCode.{addressdoesntexist}
use stationapiv.Exec.{ok, fault, Exec, gets}
use stationapiv.Exec.Fuel.{Run, lift, ◌>>=◌, ◌>>◌}
use stationapiv.Storage.{Env}
use stationapiv.Avatar.{Ptr}
use stationapiv.Room.Methods.{enter_room, leave_room, get_next_message_id}
use stationapiv.AvatarService.{by_id, avatar_at}
use stationapiv.RoomService.{Creator, create_room, destroy_room, get_room_summaries}
use stationapiv.Protocol.Requests.{
  ReqCreateRoom, ReqDestroyRoom, ReqEnterRoom, ReqLeaveRoom, ReqGetRoom, ReqGetRoomSummaries,
  ReqSendRoomMessage,
}
use stationapiv.Gateway.{
  GatewayState, respond, look_up, on_rooms, read_avatar, read_room, call_room,
}
use stationapiv.Gateway.Outbox.{
  connected_addresses, remote_addresses, send_enter_room_update, send_leave_room_update,
  send_destroy_room_update, send_room_message_update,
}
use stationapiv.Gateway.Handlers.{found_or, lookup_room, src_avatar, room_at}

-- The creator as the constructor of the room reads it, none for a null pointer.
unfoldable pub creator_at : Option Ptr → Exec GatewayState (Option Creator)
unfolding read_avatar
creator_at none g = (ok none, g)
creator_at (some p) g = (
  elim (avatar_at g.avatar_cache p) [
    | none ↦ fault
    | some a ↦ ok (some (record { ptr = p; name = a.name; address = a.address; id = a.avatar_id }))
  ],
  g,
)

-- `GetNextMessageId`, which reads no avatar
unfoldable pub next_message_id : ℕ → Exec GatewayState ℕ
next_message_id place g = elim (get_elem? g.rooms place) [
  | none ↦ (fault, g)
  | some room ↦
      let r = get_next_message_id (record { room = room; history = g.history }) in
      (r.0, record g { rooms = set g.rooms place r.1.room })
]

module _ (env : Env) (fuel : ℕ) where
  unfoldable pub handle_create_room : ReqCreateRoom → Run GatewayState (Unit {0})
  unfolding creator_at create_room
  handle_create_room r = do
    p ← look_up env fuel (by_id r.creator_id)
    creator ← lift (creator_at p)
    place ← lift (
        on_rooms (
          create_room env creator r.room_name r.room_topic r.room_password r.room_attributes
            r.room_max_size r.room_address))
    lift (respond (λ x. record x { room = some place }))

  unfoldable pub handle_destroy_room : ReqDestroyRoom → Run GatewayState (Unit {0})
  unfolding src_avatar room_at read_room remote_addresses destroy_room send_destroy_room_update
  handle_destroy_room r = do
    p ← src_avatar env fuel r.src_avatar_id
    place ← room_at r.room_address
    addresses ← lift (remote_addresses place)
    room ← lift (read_room place)
    lift (respond (λ x. record x { room_id = some room.room_id }))
    lift (on_rooms (destroy_room env place))
    lift (send_destroy_room_update p room.room_id addresses)

  unfoldable pub handle_enter_room : ReqEnterRoom → Run GatewayState (Unit {0})
  unfolding src_avatar room_at read_room call_room send_enter_room_update
  handle_enter_room r = do
    p ← src_avatar env fuel r.src_avatar_id
    place ← room_at r.room_address
    lift (respond (λ x. record x { room = some place }))
    room ← lift (read_room place)
    lift (respond (λ x. record x { room_id = some room.room_id }))
    lift (call_room place (λ id_of. enter_room env id_of p r.room_password))
    lift (send_enter_room_update p place)

  unfoldable pub handle_leave_room : ReqLeaveRoom → Run GatewayState (Unit {0})
  unfolding src_avatar room_at read_room connected_addresses call_room read_avatar
      send_leave_room_update
  handle_leave_room r = do
    p ← src_avatar env fuel r.src_avatar_id
    place ← room_at r.room_address
    room ← lift (read_room place)
    lift (respond (λ x. record x { room_id = some room.room_id }))
    addresses ← lift (connected_addresses place)
    lift (call_room place (λ id_of. leave_room env id_of p))
    src ← lift (read_avatar p)
    lift (send_leave_room_update addresses src.avatar_id room.room_id)

  unfoldable pub handle_send_room_message : ReqSendRoomMessage → Run GatewayState (Unit {0})
  unfolding src_avatar room_at read_room next_message_id send_room_message_update
  handle_send_room_message r = do
    p ← src_avatar env fuel r.src_avatar_id
    place ← room_at r.dest_room_address
    room ← lift (read_room place)
    lift (respond (λ x. record x { room_id = some room.room_id }))
    message_id ← lift (next_message_id place)
    lift (send_room_message_update p place message_id r.message r.oob)

unfoldable pub handle_get_room : ReqGetRoom → Run GatewayState (Unit {0})
unfolding found_or lookup_room
handle_get_room r = do
  place ← lookup_room r.room_address >>= found_or addressdoesntexist
  lift (respond (λ x. record x { room = some place }))

unfoldable pub handle_get_room_summaries : ReqGetRoomSummaries → Run GatewayState (Unit {0})
unfolding get_room_summaries
handle_get_room_summaries r = do
  found ← lift (gets (λ g. get_room_summaries r.start_node_address r.room_filter g.rooms))
  lift (respond (λ x. record x { rooms = found }))
