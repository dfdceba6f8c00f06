-- ===== src/Gateway/Handlers/Contacts.antt =====
-- The handlers of src/stationchat/protocol/Protocol.cpp for friends, ignored avatars and instant
-- messages.
use stationapiv.Prelude.{ℕ, Bool, not, Option, none, some, List, [], ◌∷◌, if◌then◌else◌}
use stationapiv.Enums.ResultCode.{ignoring}
use stationapiv.Exec.{ok, fault, Exec, pure, undefined, guard, when}
use stationapiv.Exec.Fuel.{Run, lift, ◌>>=◌, ◌>>◌}
use stationapiv.Storage.{Env}
use stationapiv.Avatar.{Ptr, IgnoreContact}
use stationapiv.Avatar.Contacts.{make_friend, drop_friend, make_ignored, drop_ignore, is_ignored}
use stationapiv.AvatarService.{by_name, avatar_at}
use stationapiv.Protocol.Requests.{
  ReqAddFriend, ReqRemoveFriend, ReqAddIgnore, ReqRemoveIgnore, ReqFriendStatus, ReqIgnoreStatus,
  ReqSendInstantMessage,
}
use stationapiv.Gateway.{
  GatewayState, respond, look_up, read_avatar, call_avatar, id_at, are_alive, contacts_alive,
}
use stationapiv.Gateway.Outbox.{send_friend_login_update, send_instant_message_update}
use stationapiv.Gateway.Handlers.{src_avatar, dest_avatar}

-- `ignoreList_` of an avatar against a null pointer: it is only read where the list has an entry.
unfoldable pub drop_null : List IgnoreContact → Exec GatewayState (Unit {0})
drop_null [] = pure tt
drop_null (c ∷ cs) = undefined

-- `destAvatar->IsIgnored(srcAvatar)`
unfoldable pub ignores : Ptr → Ptr → Exec GatewayState Bool
unfolding avatar_at are_alive is_ignored id_at
ignores q p g = (
  elim (avatar_at g.avatar_cache q) [
    | none ↦ fault
    | some b ↦
        if contacts_alive g.avatar_cache b
        then ok (is_ignored (id_at g.avatar_cache) b (id_at g.avatar_cache p))
        else fault
  ],
  g,
)

module _ (env : Env) (fuel : ℕ) where
  -- The comment of the request is not passed on.
  unfoldable pub handle_add_friend : ReqAddFriend → Run GatewayState (Unit {0})
  unfolding src_avatar dest_avatar call_avatar read_avatar send_friend_login_update
  handle_add_friend r = do
    p ← src_avatar env fuel r.src_avatar_id
    q ← dest_avatar env fuel r.dest_name r.dest_address
    lift (call_avatar p (λ id_of. make_friend id_of env q []))
    src ← lift (read_avatar p)
    dest ← lift (read_avatar q)
    lift (when dest.is_online (send_friend_login_update src dest))

  unfoldable pub handle_add_ignore : ReqAddIgnore → Run GatewayState (Unit {0})
  unfolding src_avatar dest_avatar call_avatar
  handle_add_ignore r = do
    p ← src_avatar env fuel r.src_avatar_id
    q ← dest_avatar env fuel r.dest_name r.dest_address
    lift (call_avatar p (λ id_of. make_ignored id_of env q))

  unfoldable pub handle_remove_friend : ReqRemoveFriend → Run GatewayState (Unit {0})
  unfolding src_avatar dest_avatar call_avatar
  handle_remove_friend r = do
    p ← src_avatar env fuel r.src_avatar_id
    q ← dest_avatar env fuel r.dest_name r.dest_address
    lift (call_avatar p (λ id_of. drop_friend id_of env q))

  -- After the second look-up the code checks the first avatar again.
  unfoldable pub drop_ignored_or_null : Ptr → Option Ptr → Run GatewayState (Unit {0})
  unfolding call_avatar read_avatar drop_null
  drop_ignored_or_null p none = do src ← lift (read_avatar p); lift (drop_null src.ignore_list)
  drop_ignored_or_null p (some q) = lift (call_avatar p (λ id_of. drop_ignore id_of env q))

  unfoldable pub handle_remove_ignore : ReqRemoveIgnore → Run GatewayState (Unit {0})
  unfolding src_avatar drop_ignored_or_null
  handle_remove_ignore r = do
    p ← src_avatar env fuel r.src_avatar_id
    dest ← look_up env fuel (by_name r.dest_name r.dest_address)
    drop_ignored_or_null p dest

  unfoldable pub handle_friend_status : ReqFriendStatus → Run GatewayState (Unit {0})
  unfolding src_avatar
  handle_friend_status r = do
    p ← src_avatar env fuel r.src_avatar_id
    lift (respond (λ x. record x { avatar = some p }))

  unfoldable pub handle_ignore_status : ReqIgnoreStatus → Run GatewayState (Unit {0})
  unfolding src_avatar
  handle_ignore_status r = do
    p ← src_avatar env fuel r.src_avatar_id
    lift (respond (λ x. record x { avatar = some p }))

  unfoldable pub handle_send_instant_message : ReqSendInstantMessage → Run GatewayState (Unit {0})
  unfolding src_avatar dest_avatar ignores send_instant_message_update
  handle_send_instant_message r = do
    p ← src_avatar env fuel r.src_avatar_id
    q ← dest_avatar env fuel r.dest_name r.dest_address
    ignored ← lift (ignores q p)
    lift (guard (not ignored) ignoring)
    lift (send_instant_message_update p q r.message r.oob)
