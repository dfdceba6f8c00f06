-- ===== src/Gateway/Requests/Rights.antt =====
-- The handlers for bans, invitations, moderators and kicks, where they throw.
use stationapiv.Prelude.{ℕ, Text}
use stationapiv.Exec.Fuel.{Run, lift}
use stationapiv.Storage.{Env}
use stationapiv.Avatar.{Ptr}
use stationapiv.Room.Methods.{
  kick_avatar, add_moderator, add_banned, add_invite, remove_moderator, remove_banned,
  remove_invite,
}
use stationapiv.Protocol.Requests.{
  ReqAddModerator, ReqRemoveModerator, ReqAddBan, ReqRemoveBan, ReqAddInvite, ReqRemoveInvite,
  ReqKickAvatar,
}
use stationapiv.Gateway.{GatewayState, respond, read_avatar, read_room, call_room}
use stationapiv.Gateway.Outbox.{connected_addresses, send_kick_avatar_update}
use stationapiv.Gateway.Handlers.{src_avatar, dest_avatar, room_at}
use stationapiv.Gateway.Handlers.Rights.{
  with_room, handle_add_ban, handle_add_invite, handle_add_moderator, handle_remove_ban,
  handle_remove_invite, handle_remove_moderator, handle_kick_avatar,
}
use stationapiv.Gateway.Silence.{
  IsQuiet, IsSilent→IsQuiet, IsMild→IsQuiet, bind-IsQuiet, lift-IsMild,
}
use stationapiv.Gateway.Updates.{call_room-IsSilent, send_kick_avatar_update-NeverRaises}
use stationapiv.Gateway.Calls.{
  room_at-IsSilent, read_avatar-IsSilent, read_room-IsSilent, respond-IsSilent,
  connected_addresses-IsSilent, src_avatar-IsSilent, dest_avatar-IsSilent,
}

module _ (env : Env) (fuel : ℕ) where
  with_room-IsQuiet :
      (src_id : ℕ) (name address room_address : Text)
      (rest : Ptr → Ptr → ℕ → ℕ → ℕ → Run GatewayState (Unit {0}))
      → ((p q : Ptr) (place src dest : ℕ) → IsQuiet (rest p q place src dest))
      → IsQuiet (with_room env fuel src_id name address room_address rest)
  unfolding with_room
  with_room-IsQuiet src_id name address room_address rest h =
      bind-IsQuiet (src_avatar env fuel src_id) _ (src_avatar-IsSilent env fuel src_id) (λ p.
        bind-IsQuiet (dest_avatar env fuel name address) _
          (dest_avatar-IsSilent env fuel name address)
          (λ q. bind-IsQuiet (room_at room_address) _ (room_at-IsSilent room_address) (λ place.
            bind-IsQuiet (lift (read_room place)) _ (read_room-IsSilent place) (λ room.
              bind-IsQuiet (lift (respond _)) _ (respond-IsSilent _) (λ x.
                bind-IsQuiet (lift (read_avatar p)) _ (read_avatar-IsSilent p) (λ src.
                  bind-IsQuiet (lift (read_avatar q)) _ (read_avatar-IsSilent q)
                    (λ dest. h p q place src.avatar_id dest.avatar_id)))))))

  pub handle_add_ban-IsQuiet : (r : ReqAddBan) → IsQuiet (handle_add_ban env fuel r)
  unfolding handle_add_ban
  handle_add_ban-IsQuiet r = with_room-IsQuiet _ _ _ _ _ (λ p q place src dest.
      IsSilent→IsQuiet _ (call_room-IsSilent place (λ id_of. add_banned env id_of src q)))

  pub handle_add_invite-IsQuiet : (r : ReqAddInvite) → IsQuiet (handle_add_invite env fuel r)
  unfolding handle_add_invite
  handle_add_invite-IsQuiet r = with_room-IsQuiet _ _ _ _ _ (λ p q place src dest.
      IsSilent→IsQuiet _ (call_room-IsSilent place (λ id_of. add_invite env id_of src q)))

  pub handle_add_moderator-IsQuiet :
      (r : ReqAddModerator) → IsQuiet (handle_add_moderator env fuel r)
  unfolding handle_add_moderator
  handle_add_moderator-IsQuiet r = with_room-IsQuiet _ _ _ _ _ (λ p q place src dest.
      IsSilent→IsQuiet _ (call_room-IsSilent place (λ id_of. add_moderator env id_of src q)))

  pub handle_remove_ban-IsQuiet : (r : ReqRemoveBan) → IsQuiet (handle_remove_ban env fuel r)
  unfolding handle_remove_ban
  handle_remove_ban-IsQuiet r = with_room-IsQuiet _ _ _ _ _ (λ p q place src dest.
      IsSilent→IsQuiet _ (call_room-IsSilent place (λ id_of. remove_banned env id_of src dest)))

  pub handle_remove_invite-IsQuiet :
      (r : ReqRemoveInvite) → IsQuiet (handle_remove_invite env fuel r)
  unfolding handle_remove_invite
  handle_remove_invite-IsQuiet r = with_room-IsQuiet _ _ _ _ _ (λ p q place src dest.
      IsSilent→IsQuiet _ (call_room-IsSilent place (λ id_of. remove_invite env id_of src dest)))

  pub handle_remove_moderator-IsQuiet :
      (r : ReqRemoveModerator) → IsQuiet (handle_remove_moderator env fuel r)
  unfolding handle_remove_moderator
  handle_remove_moderator-IsQuiet r = with_room-IsQuiet _ _ _ _ _ (λ p q place src dest.
      IsSilent→IsQuiet _ (call_room-IsSilent place (λ id_of. remove_moderator env id_of src dest)))

  pub handle_kick_avatar-IsQuiet : (r : ReqKickAvatar) → IsQuiet (handle_kick_avatar env fuel r)
  unfolding handle_kick_avatar
  handle_kick_avatar-IsQuiet r = with_room-IsQuiet _ _ _ _ _ (λ p q place src dest.
      bind-IsQuiet (lift (connected_addresses place)) _ (connected_addresses-IsSilent place) (λ to.
        bind-IsQuiet (lift (call_room place (λ id_of. kick_avatar env id_of src q))) _
          (call_room-IsSilent place (λ id_of. kick_avatar env id_of src q))
          (λ x.
            IsMild→IsQuiet (lift (send_kick_avatar_update to p q place))
              (lift-IsMild _ (send_kick_avatar_update-NeverRaises to p q place)))))
