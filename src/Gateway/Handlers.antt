-- ===== src/Gateway/Handlers.antt =====
-- What the constructors of src/stationchat/protocol/Protocol.cpp share: the look-ups and their
-- checks. The website integration is disabled.
pub mod Rights
pub mod Contacts
pub mod Rooms
pub mod Avatars
pub mod Mail
use stationapiv.Prelude.{ℕ, Option, none, some, Text}
use stationapiv.Enums.ResultCode.{
  ChatResultCode, srcavatardoesntexist, destavatardoesntexist, addressnotroom,
}
use stationapiv.Exec.{chat_result, pure, raise, gets}
use stationapiv.Exec.Fuel.{Run, lift, ◌>>=◌, ◌>>◌}
use stationapiv.Storage.{Env}
use stationapiv.Avatar.{Ptr}
use stationapiv.AvatarService.{by_name, by_id}
use stationapiv.RoomService.{find_room}
use stationapiv.Gateway.{GatewayState, look_up}

-- `if (!pointer) { throw ChatResultException{code, …}; }`
unfoldable pub found_or : {A : Type 0} → ChatResultCode → Option A → Run GatewayState A
found_or code none = lift (raise (chat_result code))
found_or code (some a) = lift (pure a)

unfoldable pub lookup_room : Text → Run GatewayState (Option ℕ)
unfolding find_room
lookup_room address = lift (gets (λ g. find_room address g.rooms))

unfoldable pub room_at : Text → Run GatewayState ℕ
unfolding found_or lookup_room
room_at address = lookup_room address >>= found_or addressnotroom

module _ (env : Env) (fuel : ℕ) where
  -- The avatar that a request comes from
  unfoldable pub src_avatar : ℕ → Run GatewayState Ptr
  unfolding found_or
  src_avatar id = look_up env fuel (by_id id) >>= found_or srcavatardoesntexist

  -- The avatar that a request names
  unfoldable pub dest_avatar : Text → Text → Run GatewayState Ptr
  unfolding found_or
  dest_avatar name address =
      look_up env fuel (by_name name address) >>= found_or destavatardoesntexist
