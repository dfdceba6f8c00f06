-- ===== src/Gateway/Requests/Rooms.antt =====
-- The handlers for rooms, where they throw.
use stationapiv.Prelude.{ℕ, refl, get_elem?, Option, none, some, Option-cases, inl, inr, Text}
use stationapiv.Exec.{Exec, gets}
use stationapiv.Exec.Fuel.{Run, lift, ◌>>=◌}
use stationapiv.Storage.{Env}
use stationapiv.Avatar.{Ptr}
use stationapiv.Enums.ResultCode.{addressdoesntexist}
use stationapiv.Room.Methods.{enter_room, leave_room}
use stationapiv.AvatarService.{by_id}
use stationapiv.RoomService.{RoomService, create_room, destroy_room, get_room_summaries}
use stationapiv.Protocol.Requests.{
  ReqCreateRoom, ReqDestroyRoom, ReqEnterRoom, ReqLeaveRoom, ReqGetRoom, ReqGetRoomSummaries,
  ReqSendRoomMessage,
}
use stationapiv.Gateway.{
  GatewayState, respond, look_up, on_rooms, read_avatar, read_room, call_room,
}
use stationapiv.Gateway.Outbox.{
  connected_addresses, remote_addresses, send_enter_room_update, send_leave_room_update,
  send_destroy_room_update, send_room_message_update,
}
use stationapiv.Gateway.Handlers.{found_or, lookup_room, src_avatar, room_at}
use stationapiv.Gateway.Handlers.Rooms.{
  creator_at, next_message_id, handle_create_room, handle_destroy_room, handle_enter_room,
  handle_leave_room, handle_send_room_message, handle_get_room, handle_get_room_summaries,
}
use stationapiv.Gateway.Silence.{
  IsSilent, IsQuiet, IsMild→IsQuiet, bind-IsSilent, bind-IsQuiet, lift-IsSilent, lift-IsMild,
}
use stationapiv.Gateway.Updates.{
  look_up-IsSilent, call_room-IsSilent, send_enter_room_update-NeverRaises,
  send_leave_room_update-NeverRaises, send_destroy_room_update-NeverRaises,
  send_room_message_update-NeverRaises,
}
use stationapiv.Gateway.Calls.{
  found_or-IsSilent, lookup_room-IsSilent, room_at-IsSilent, read_avatar-IsSilent,
  read_room-IsSilent, respond-IsSilent, respond-IsMild, connected_addresses-IsSilent,
  remote_addresses-IsSilent, src_avatar-IsSilent,
}

creator_at-IsSilent : (o : Option Ptr) → IsSilent (lift (creator_at o))
unfolding creator_at
creator_at-IsSilent none = lift-IsSilent (creator_at none) (λ g. refl)
creator_at-IsSilent (some p) = lift-IsSilent (creator_at (some p)) (λ g. refl)

next_message_id-IsSilent : (place : ℕ) → IsSilent (lift (next_message_id place))
unfolding next_message_id
next_message_id-IsSilent place = lift-IsSilent (next_message_id place) (λ g.
    elim (Option-cases (get_elem? g.rooms place)) [
      | inl n ↦ rw (n, next_message_id) refl
      | inr (r, e) ↦ rw (e, next_message_id) refl
    ])

on_rooms-IsSilent : {A : Type 0} (m : Exec RoomService A) → IsSilent (lift (on_rooms m))
on_rooms-IsSilent m = lift-IsSilent (on_rooms m) (λ g. refl)

module _ (env : Env) (fuel : ℕ) where
  with_place-IsQuiet :
      (src_id : ℕ) (room_address : Text) (rest : Ptr → ℕ → Run GatewayState (Unit {0}))
      → ((p : Ptr) (place : ℕ) → IsQuiet (rest p place))
      → IsQuiet (src_avatar env fuel src_id >>= λ p. room_at room_address >>= λ place. rest p place)
  with_place-IsQuiet src_id room_address rest h =
      bind-IsQuiet (src_avatar env fuel src_id) _ (src_avatar-IsSilent env fuel src_id) (λ p.
        bind-IsQuiet (room_at room_address) _ (room_at-IsSilent room_address) (λ place. h p place))

  pub handle_create_room-IsQuiet : (r : ReqCreateRoom) → IsQuiet (handle_create_room env fuel r)
  unfolding handle_create_room
  handle_create_room-IsQuiet r =
      bind-IsQuiet (look_up env fuel (by_id r.creator_id)) _ (look_up-IsSilent env fuel _) (λ o.
        bind-IsQuiet (lift (creator_at o)) _ (creator_at-IsSilent o) (λ creator.
          bind-IsQuiet
            (lift (
              on_rooms (
                create_room env creator r.room_name r.room_topic r.room_password r.room_attributes
                  r.room_max_size r.room_address)))
            _
            (on_rooms-IsSilent (
              create_room env creator r.room_name r.room_topic r.room_password r.room_attributes
                r.room_max_size r.room_address))
            (λ place. IsMild→IsQuiet (lift (respond _)) (respond-IsMild _))))

  pub handle_destroy_room-IsQuiet : (r : ReqDestroyRoom) → IsQuiet (handle_destroy_room env fuel r)
  unfolding handle_destroy_room
  handle_destroy_room-IsQuiet r = with_place-IsQuiet _ _ _ (λ p place.
      bind-IsQuiet (lift (remote_addresses place)) _ (remote_addresses-IsSilent place) (λ to.
        bind-IsQuiet (lift (read_room place)) _ (read_room-IsSilent place) (λ room.
          bind-IsQuiet (lift (respond _)) _ (respond-IsSilent _) (λ x.
            bind-IsQuiet (lift (on_rooms (destroy_room env place))) _
              (on_rooms-IsSilent (destroy_room env place))
              (λ y.
                IsMild→IsQuiet (lift (send_destroy_room_update p room.room_id to))
                  (lift-IsMild _ (send_destroy_room_update-NeverRaises p room.room_id to)))))))

  pub handle_enter_room-IsQuiet : (r : ReqEnterRoom) → IsQuiet (handle_enter_room env fuel r)
  unfolding handle_enter_room
  handle_enter_room-IsQuiet r = with_place-IsQuiet _ _ _ (λ p place.
      bind-IsQuiet (lift (respond _)) _ (respond-IsSilent _) (λ x.
        bind-IsQuiet (lift (read_room place)) _ (read_room-IsSilent place) (λ room.
          bind-IsQuiet (lift (respond _)) _ (respond-IsSilent _) (λ y.
            bind-IsQuiet (lift (call_room place (λ id_of. enter_room env id_of p r.room_password)))
              _ (call_room-IsSilent place (λ id_of. enter_room env id_of p r.room_password))
              (λ z.
                IsMild→IsQuiet (lift (send_enter_room_update p place))
                  (lift-IsMild _ (send_enter_room_update-NeverRaises p place)))))))

  pub handle_leave_room-IsQuiet : (r : ReqLeaveRoom) → IsQuiet (handle_leave_room env fuel r)
  unfolding handle_leave_room
  handle_leave_room-IsQuiet r = with_place-IsQuiet _ _ _ (λ p place.
      bind-IsQuiet (lift (read_room place)) _ (read_room-IsSilent place) (λ room.
        bind-IsQuiet (lift (respond _)) _ (respond-IsSilent _) (λ y.
          bind-IsQuiet (lift (connected_addresses place)) _ (connected_addresses-IsSilent place)
            (λ to.
              bind-IsQuiet (lift (call_room place (λ id_of. leave_room env id_of p))) _
                (call_room-IsSilent place (λ id_of. leave_room env id_of p))
                (λ z. bind-IsQuiet (lift (read_avatar p)) _ (read_avatar-IsSilent p) (λ src.
                  IsMild→IsQuiet (lift (send_leave_room_update to src.avatar_id room.room_id)) (
                    lift-IsMild _
                      (send_leave_room_update-NeverRaises to src.avatar_id room.room_id))))))))

  pub handle_send_room_message-IsQuiet :
      (r : ReqSendRoomMessage) → IsQuiet (handle_send_room_message env fuel r)
  unfolding handle_send_room_message
  handle_send_room_message-IsQuiet r = with_place-IsQuiet _ _ _ (λ p place.
      bind-IsQuiet (lift (read_room place)) _ (read_room-IsSilent place) (λ room.
        bind-IsQuiet (lift (respond _)) _ (respond-IsSilent _) (λ y.
          bind-IsQuiet (lift (next_message_id place)) _ (next_message_id-IsSilent place) (λ id.
            IsMild→IsQuiet (lift (send_room_message_update p place id r.message r.oob))
              (lift-IsMild _ (send_room_message_update-NeverRaises p place id r.message r.oob))))))

pub handle_get_room-IsQuiet : (r : ReqGetRoom) → IsQuiet (handle_get_room r)
unfolding handle_get_room
handle_get_room-IsQuiet r =
    bind-IsQuiet (lookup_room r.room_address >>= found_or addressdoesntexist) _
      (bind-IsSilent (lookup_room r.room_address) (found_or addressdoesntexist)
        (lookup_room-IsSilent r.room_address) (found_or-IsSilent addressdoesntexist))
      (λ place. IsMild→IsQuiet (lift (respond _)) (respond-IsMild _))

pub handle_get_room_summaries-IsQuiet :
    (r : ReqGetRoomSummaries) → IsQuiet (handle_get_room_summaries r)
unfolding handle_get_room_summaries
handle_get_room_summaries-IsQuiet r =
    bind-IsQuiet (lift (gets (λ g. get_room_summaries r.start_node_address r.room_filter g.rooms)))
      _ (lift-IsSilent _ (λ g. refl))
      (λ found. IsMild→IsQuiet (lift (respond _)) (respond-IsMild _))
