-- ===== src/Gateway/Requests/Contacts.antt =====
-- The handlers for friends, ignored avatars and instant messages, where they throw.
use stationapiv.Prelude.{ℕ, refl, Bool, true, false, not, List, [], ◌∷◌, Option, none, some, Text}
use stationapiv.Exec.{pure, guard, when, undefined}
use stationapiv.Exec.Fuel.{Run, lift, ◌>>=◌}
use stationapiv.Storage.{Env}
use stationapiv.Avatar.{Ptr, IgnoreContact}
use stationapiv.Enums.ResultCode.{ignoring}
use stationapiv.Avatar.Contacts.{make_friend, drop_friend, make_ignored, drop_ignore}
use stationapiv.AvatarService.{by_name}
use stationapiv.Protocol.Requests.{
  ReqAddFriend, ReqRemoveFriend, ReqAddIgnore, ReqRemoveIgnore, ReqFriendStatus, ReqIgnoreStatus,
  ReqSendInstantMessage,
}
use stationapiv.Gateway.{GatewayState, respond, look_up, read_avatar, call_avatar}
use stationapiv.Gateway.Outbox.{send_friend_login_update, send_instant_message_update}
use stationapiv.Gateway.Handlers.{src_avatar, dest_avatar}
use stationapiv.Gateway.Handlers.Contacts.{
  drop_null, handle_add_friend, handle_add_ignore, handle_remove_friend, drop_ignored_or_null,
  handle_remove_ignore, handle_friend_status, handle_ignore_status, ignores,
  handle_send_instant_message,
}
use stationapiv.Gateway.Silence.{
  IsSilent, IsQuiet, IsSilent→IsQuiet, IsMild→IsQuiet, bind-IsSilent, bind-IsQuiet, lift-IsSilent,
  lift-IsMild, when-NeverRaises,
}
use stationapiv.Gateway.Updates.{
  look_up-IsSilent, call_avatar-IsSilent, send_instant_message_update-NeverRaises,
  send_friend_login_update-NeverRaises,
}
use stationapiv.Gateway.Calls.{
  read_avatar-IsSilent, respond-IsMild, src_avatar-IsSilent, dest_avatar-IsSilent,
}

pub ignores-IsSilent : (q p : Ptr) → IsSilent (lift (ignores q p))
unfolding ignores
ignores-IsSilent q p = lift-IsSilent (ignores q p) (λ g. refl)

drop_null-IsSilent : (cs : List IgnoreContact) → IsSilent (lift (drop_null cs))
unfolding drop_null
drop_null-IsSilent [] = lift-IsSilent (pure tt) (λ g. refl)
drop_null-IsSilent (c ∷ cs) = lift-IsSilent undefined (λ g. refl)

pub guard-IsSilent : (b : Bool) → IsSilent (lift (guard {S = GatewayState} b ignoring))
guard-IsSilent true = lift-IsSilent (guard true ignoring) (λ g. refl)
guard-IsSilent false = lift-IsSilent (guard false ignoring) (λ g. refl)

module _ (env : Env) (fuel : ℕ) where
  with_both-IsQuiet :
      (src_id : ℕ) (name address : Text) (rest : Ptr → Ptr → Run GatewayState (Unit {0}))
      → ((p q : Ptr) → IsQuiet (rest p q))
      → IsQuiet
          (src_avatar env fuel src_id >>= λ p. dest_avatar env fuel name address >>= λ q. rest p q)
  with_both-IsQuiet src_id name address rest h =
      bind-IsQuiet (src_avatar env fuel src_id) _ (src_avatar-IsSilent env fuel src_id) (λ p.
        bind-IsQuiet (dest_avatar env fuel name address) _
          (dest_avatar-IsSilent env fuel name address) (λ q. h p q))

  pub handle_add_friend-IsQuiet : (r : ReqAddFriend) → IsQuiet (handle_add_friend env fuel r)
  unfolding handle_add_friend
  handle_add_friend-IsQuiet r = with_both-IsQuiet _ _ _ _ (λ p q.
      bind-IsQuiet (lift (call_avatar p (λ id_of. make_friend id_of env q []))) _
        (call_avatar-IsSilent p (λ id_of. make_friend id_of env q []))
        (λ x. bind-IsQuiet (lift (read_avatar p)) _ (read_avatar-IsSilent p) (λ src.
          bind-IsQuiet (lift (read_avatar q)) _ (read_avatar-IsSilent q) (λ dest.
            IsMild→IsQuiet (lift (when dest.is_online (send_friend_login_update src dest))) (
              lift-IsMild _ (
                when-NeverRaises dest.is_online _
                  (send_friend_login_update-NeverRaises src dest)))))))

  pub handle_add_ignore-IsQuiet : (r : ReqAddIgnore) → IsQuiet (handle_add_ignore env fuel r)
  unfolding handle_add_ignore
  handle_add_ignore-IsQuiet r =
      with_both-IsQuiet _ _ _ _
        (λ p q. IsSilent→IsQuiet _ (call_avatar-IsSilent p (λ id_of. make_ignored id_of env q)))

  pub handle_remove_friend-IsQuiet :
      (r : ReqRemoveFriend) → IsQuiet (handle_remove_friend env fuel r)
  unfolding handle_remove_friend
  handle_remove_friend-IsQuiet r =
      with_both-IsQuiet _ _ _ _
        (λ p q. IsSilent→IsQuiet _ (call_avatar-IsSilent p (λ id_of. drop_friend id_of env q)))

  drop_ignored_or_null-IsSilent :
      (p : Ptr) (o : Option Ptr) → IsSilent (drop_ignored_or_null env fuel p o)
  unfolding drop_ignored_or_null
  drop_ignored_or_null-IsSilent p none =
      bind-IsSilent (lift (read_avatar p)) _ (read_avatar-IsSilent p)
        (λ a. drop_null-IsSilent a.ignore_list)
  drop_ignored_or_null-IsSilent p (some q) =
      call_avatar-IsSilent p (λ id_of. drop_ignore id_of env q)

  pub handle_remove_ignore-IsQuiet :
      (r : ReqRemoveIgnore) → IsQuiet (handle_remove_ignore env fuel r)
  unfolding handle_remove_ignore
  handle_remove_ignore-IsQuiet r =
      bind-IsQuiet (src_avatar env fuel r.src_avatar_id) _ (src_avatar-IsSilent env fuel _) (λ p.
        bind-IsQuiet (look_up env fuel (by_name r.dest_name r.dest_address)) _
          (look_up-IsSilent env fuel _)
          (λ o. IsSilent→IsQuiet _ (drop_ignored_or_null-IsSilent p o)))

  pub handle_friend_status-IsQuiet :
      (r : ReqFriendStatus) → IsQuiet (handle_friend_status env fuel r)
  unfolding handle_friend_status
  handle_friend_status-IsQuiet r =
      bind-IsQuiet (src_avatar env fuel r.src_avatar_id) _ (src_avatar-IsSilent env fuel _)
        (λ p. IsMild→IsQuiet (lift (respond _)) (respond-IsMild _))

  pub handle_ignore_status-IsQuiet :
      (r : ReqIgnoreStatus) → IsQuiet (handle_ignore_status env fuel r)
  unfolding handle_ignore_status
  handle_ignore_status-IsQuiet r =
      bind-IsQuiet (src_avatar env fuel r.src_avatar_id) _ (src_avatar-IsSilent env fuel _)
        (λ p. IsMild→IsQuiet (lift (respond _)) (respond-IsMild _))

  pub handle_send_instant_message-IsQuiet :
      (r : ReqSendInstantMessage) → IsQuiet (handle_send_instant_message env fuel r)
  unfolding handle_send_instant_message
  handle_send_instant_message-IsQuiet r = with_both-IsQuiet _ _ _ _ (λ p q.
      bind-IsQuiet (lift (ignores q p)) _ (ignores-IsSilent q p) (λ ignored.
        bind-IsQuiet (lift (guard (not ignored) ignoring)) _ (guard-IsSilent (not ignored)) (λ x.
          IsMild→IsQuiet (lift (send_instant_message_update p q r.message r.oob))
            (lift-IsMild _ (send_instant_message_update-NeverRaises p q r.message r.oob)))))
