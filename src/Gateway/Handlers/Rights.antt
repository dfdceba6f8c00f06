-- ===== src/Gateway/Handlers/Rights.antt =====
-- The handlers of src/stationchat/protocol/Protocol.cpp for bans, invitations, moderators and kicks.
use stationapiv.Prelude.{ℕ, some, Text}
use stationapiv.Exec.Fuel.{Run, lift, ◌>>=◌, ◌>>◌}
use stationapiv.Storage.{Env}
use stationapiv.Avatar.{Ptr}
use stationapiv.Room.Methods.{
  kick_avatar, add_moderator, add_banned, add_invite, remove_moderator, remove_banned,
  remove_invite,
}
use stationapiv.Protocol.Requests.{
  ReqAddModerator, ReqRemoveModerator, ReqAddBan, ReqRemoveBan, ReqAddInvite, ReqRemoveInvite,
  ReqKickAvatar,
}
use stationapiv.Gateway.{GatewayState, respond, read_avatar, read_room, call_room}
use stationapiv.Gateway.Outbox.{connected_addresses, send_kick_avatar_update}
use stationapiv.Gateway.Handlers.{src_avatar, dest_avatar, room_at}

module _ (env : Env) (fuel : ℕ) where
  -- What these seven handlers begin with: the source, the avatar named, the room, and its id in the
  -- response. The rest gets the places of the three and the ids of the two avatars.
  unfoldable pub with_room :
      ℕ
      → Text
      → Text
      → Text
      → (Ptr → Ptr → ℕ → ℕ → ℕ → Run GatewayState (Unit {0}))
      → Run GatewayState (Unit {0})
  unfolding src_avatar dest_avatar room_at read_avatar read_room
  with_room src_id name address room_address rest = do
    p ← src_avatar env fuel src_id
    q ← dest_avatar env fuel name address
    place ← room_at room_address
    room ← lift (read_room place)
    lift (respond (λ r. record r { room_id = some room.room_id }))
    src ← lift (read_avatar p)
    dest ← lift (read_avatar q)
    rest p q place src.avatar_id dest.avatar_id

  unfoldable pub handle_add_ban : ReqAddBan → Run GatewayState (Unit {0})
  unfolding with_room call_room
  handle_add_ban r =
      with_room r.src_avatar_id r.dest_avatar_name r.dest_avatar_address r.dest_room_address
        (λ p q place src dest. lift (call_room place (λ id_of. add_banned env id_of src q)))

  unfoldable pub handle_add_invite : ReqAddInvite → Run GatewayState (Unit {0})
  unfolding with_room call_room
  handle_add_invite r =
      with_room r.src_avatar_id r.dest_avatar_name r.dest_avatar_address r.dest_room_address
        (λ p q place src dest. lift (call_room place (λ id_of. add_invite env id_of src q)))

  unfoldable pub handle_add_moderator : ReqAddModerator → Run GatewayState (Unit {0})
  unfolding with_room call_room
  handle_add_moderator r =
      with_room r.src_avatar_id r.dest_avatar_name r.dest_avatar_address r.dest_room_address
        (λ p q place src dest. lift (call_room place (λ id_of. add_moderator env id_of src q)))

  unfoldable pub handle_remove_ban : ReqRemoveBan → Run GatewayState (Unit {0})
  unfolding with_room call_room
  handle_remove_ban r =
      with_room r.src_avatar_id r.dest_avatar_name r.dest_avatar_address r.dest_room_address
        (λ p q place src dest. lift (call_room place (λ id_of. remove_banned env id_of src dest)))

  unfoldable pub handle_remove_invite : ReqRemoveInvite → Run GatewayState (Unit {0})
  unfolding with_room call_room
  handle_remove_invite r =
      with_room r.src_avatar_id r.dest_avatar_name r.dest_avatar_address r.dest_room_address
        (λ p q place src dest. lift (call_room place (λ id_of. remove_invite env id_of src dest)))

  unfoldable pub handle_remove_moderator : ReqRemoveModerator → Run GatewayState (Unit {0})
  unfolding with_room call_room
  handle_remove_moderator r =
      with_room r.src_avatar_id r.dest_avatar_name r.dest_avatar_address r.dest_room_address
        (λ p q place src dest.
          lift (call_room place (λ id_of. remove_moderator env id_of src dest)))

  unfoldable pub handle_kick_avatar : ReqKickAvatar → Run GatewayState (Unit {0})
  unfolding with_room call_room connected_addresses send_kick_avatar_update
  handle_kick_avatar r =
      with_room r.src_avatar_id r.dest_avatar_name r.dest_avatar_address r.dest_room_address
        (λ p q place src dest. do
          addresses ← lift (connected_addresses place)
          lift (call_room place (λ id_of. kick_avatar env id_of src q))
          lift (send_kick_avatar_update addresses p q place))
