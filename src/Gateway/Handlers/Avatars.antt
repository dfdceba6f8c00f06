-- ===== src/Gateway/Handlers/Avatars.antt =====
-- The handlers of src/stationchat/protocol/Protocol.cpp for avatars as a whole, and the one of the
-- version.
use stationapiv.Prelude.{
  ℕ, not, Option, none, some, List, ◌∷◌, any, Text, text_eq, codes, ◌==◌, if◌then◌else◌,
}
use stationapiv.Enums.ResultCode.{success, wrongchatserverforrequest, srcavatardoesntexist}
use stationapiv.Exec.{ok, fault, Exec, pure, undefined, modify, when}
use stationapiv.Exec.Fuel.{Run, lift, ◌>>=◌, ◌>>◌, for_each}
use stationapiv.Storage.{Env}
use stationapiv.Avatar.{Ptr}
use stationapiv.Room.{ChatRoom}
use stationapiv.Room.Methods.{leave_room}
use stationapiv.AvatarService.{
  by_id, by_name, change_at, change_avatar, login, logout, create_avatar, destroy_avatar,
  update_row,
}
use stationapiv.RoomService.{get_joined_rooms, load_rooms_from_storage}
use stationapiv.Protocol.Requests.{
  ReqLoginAvatar, ReqLogoutAvatar, ReqDestroyAvatar, ReqFailoverReLoginAvatar, ReqGetAnyAvatar,
  ReqSetAvatarAttributes, ReqSetApiVersion,
}
use stationapiv.Website.Mirror.{record_avatar_login, record_avatar_logout}
use stationapiv.Gateway.{
  on_history, GatewayState, respond, look_up, on_avatars, on_rooms, read_avatar, read_room,
  call_room, id_at, are_alive,
}
use stationapiv.Gateway.Outbox.{
  connected_addresses, send_enter_room_update, send_leave_room_update, send_friend_login_updates,
  send_friend_logout_updates,
}
use stationapiv.Gateway.Handlers.{found_or, src_avatar}

-- `GetJoinedRooms`, where the avatars in all rooms are alive
unfoldable pub joined_rooms : ℕ → Exec GatewayState (List ℕ)
unfolding get_joined_rooms id_at are_alive
joined_rooms id g = (
  if any (λ (r : ChatRoom). not (are_alive g.avatar_cache r.avatars)) g.rooms
      then fault
      else ok (get_joined_rooms (id_at g.avatar_cache) id g.rooms),
  g,
)

-- `clientAddressMap_[address] = client`
unfoldable pub register_client_address : Text → Exec GatewayState (Unit {0})
register_client_address address =
    modify (λ g. record g { client_addresses = address ∷ g.client_addresses })

module _ (env : Env) (fuel : ℕ) where
  -- The body of the loop over the rooms of an avatar that leaves
  unfoldable pub leave_joined : Ptr → ℕ → Run GatewayState (Unit {0})
  unfolding connected_addresses call_room read_avatar read_room send_leave_room_update
  leave_joined p place = do
    addresses ← lift (connected_addresses place)
    lift (call_room place (λ id_of. leave_room env id_of p))
    a ← lift (read_avatar p)
    room ← lift (read_room place)
    lift (send_leave_room_update addresses a.avatar_id room.room_id)

  unfoldable pub leave_all : Ptr → Run GatewayState (Unit {0})
  unfolding read_avatar joined_rooms leave_joined
  leave_all p = do
    a ← lift (read_avatar p)
    places ← lift (joined_rooms a.avatar_id)
    for_each (leave_joined p) places

  unfoldable pub handle_destroy_avatar : ReqDestroyAvatar → Run GatewayState (Unit {0})
  unfolding src_avatar leave_all destroy_avatar
  handle_destroy_avatar r = do
    p ← src_avatar env fuel r.avatar_id
    leave_all p
    lift (on_avatars (destroy_avatar env p))

  -- The pointer is not checked: an id without an avatar is dereferenced.
  unfoldable pub log_out : Option Ptr → Run GatewayState (Unit {0})
  unfolding leave_all send_friend_logout_updates read_avatar record_avatar_logout
  log_out none = lift undefined
  log_out (some p) = do
    leave_all p
    lift (send_friend_logout_updates p)
    lift (on_avatars (logout p))
    a ← lift (read_avatar p)
    lift (on_history (record_avatar_logout env a))

  unfoldable pub handle_logout_avatar : ReqLogoutAvatar → Run GatewayState (Unit {0})
  unfolding log_out
  handle_logout_avatar r = look_up env fuel (by_id r.avatar_id) >>= log_out

  unfoldable pub login_or_create : Text → Text → ℕ → ℕ → Text → Option Ptr → Run GatewayState Ptr
  unfolding create_avatar
  login_or_create name address user_id attributes location (some p) = lift (pure p)
  login_or_create name address user_id attributes location none =
      lift (on_avatars (create_avatar env name address user_id attributes location))

  -- What both logins do: the avatar online, and either the rooms of its game server loaded or its
  -- friends told.
  unfoldable pub log_in : Text → Ptr → Run GatewayState (Unit {0})
  unfolding read_avatar record_avatar_login register_client_address load_rooms_from_storage
      send_friend_login_updates
  log_in address p = do
    lift (on_avatars (login p))
    a ← lift (read_avatar p)
    lift (on_history (record_avatar_login env a))
    (if text_eq a.name (codes "SYSTEM")
        then (lift (register_client_address a.address)
            >> lift (on_rooms (load_rooms_from_storage env address)))
        else lift (send_friend_login_updates p))

  unfoldable pub handle_login_avatar : ReqLoginAvatar → Run GatewayState (Unit {0})
  unfolding login_or_create log_in
  handle_login_avatar r = do
    found ← look_up env fuel (by_name r.name r.address)
    p ← login_or_create r.name r.address r.user_id r.login_attributes r.login_location found
    log_in r.address p
    lift (respond (λ x. record x { avatar = some p }))

  unfoldable pub enter_joined : Ptr → ℕ → Run GatewayState (Unit {0})
  unfolding send_enter_room_update
  enter_joined p place = lift (send_enter_room_update p place)

  unfoldable pub handle_failover : ReqFailoverReLoginAvatar → Run GatewayState (Unit {0})
  unfolding login_or_create log_in read_avatar joined_rooms enter_joined
  handle_failover r = do
    found ← look_up env fuel (by_name r.name r.address)
    p ← login_or_create r.name r.address r.user_id r.attributes r.login_location found
    log_in r.address p
    a ← lift (read_avatar p)
    places ← lift (joined_rooms a.avatar_id)
    for_each (enter_joined p) places

  unfoldable pub handle_get_any_avatar : ReqGetAnyAvatar → Run GatewayState (Unit {0})
  unfolding found_or read_avatar
  handle_get_any_avatar r = do
    p ← look_up env fuel (by_name r.name r.address) >>= found_or srcavatardoesntexist
    a ← lift (read_avatar p)
    lift (respond (λ x. record x { is_online = a.is_online; avatar = some p }))

  unfoldable pub handle_set_avatar_attributes : ReqSetAvatarAttributes → Run GatewayState (Unit {0})
  unfolding src_avatar read_avatar change_at update_row
  handle_set_avatar_attributes r = do
    p ← src_avatar env fuel r.avatar_id
    lift (respond (λ x. record x { avatar = some p }))
    a ← lift (read_avatar p)
    (if a.attributes == r.avatar_attributes
        then lift (pure tt)
        else (lift
              (on_avatars (change_avatar p (λ x. record x { attributes = r.avatar_attributes })))
            >> lift (when (not (r.persistent == 0)) (on_avatars (update_row env p)))))

unfoldable pub handle_set_api_version : ℕ → ReqSetApiVersion → Run GatewayState (Unit {0})
handle_set_api_version version r = lift (
    respond (λ x. record x {
      version = some version;
      result = if version == r.version then success else wrongchatserverforrequest;
    }))
