-- ===== src/Gateway/Requests/Mail.antt =====
-- The handlers of the mail, where they throw.
use stationapiv.Prelude.{ℕ, refl, not, [], ◌∷◌}
use stationapiv.Exec.{Exec, pure, guard}
use stationapiv.Exec.Fuel.{lift, ◌>>◌}
use stationapiv.Storage.{Env}
use stationapiv.Avatar.{Ptr, ChatAvatar}
use stationapiv.Storage.{
  History, statement, execute, int, wide, update_message_status, bulk_update_message_status,
}
use stationapiv.Enums.ResultCode.{ignoring}
use stationapiv.Messages.Service.{store, message_headers, fetch}
use stationapiv.Protocol.Requests.{
  Sender, from_name, from_avatar, ReqSendPersistentMessage, ReqGetPersistentHeaders,
  ReqGetPersistentMessage, ReqUpdatePersistentMessage, ReqUpdatePersistentMessages,
}
use stationapiv.Website.Mirror.{record_persistent_message}
use stationapiv.Gateway.{on_history, GatewayState, respond, read_avatar}
use stationapiv.Gateway.Outbox.{send_persistent_message_update}
use stationapiv.Gateway.Handlers.{src_avatar, dest_avatar}
use stationapiv.Gateway.Handlers.Contacts.{ignores}
use stationapiv.Gateway.Handlers.Mail.{
  mail_of, sender_of, handle_send_persistent_message, handle_get_persistent_headers,
  handle_get_persistent_message, handle_update_persistent_message,
  handle_update_persistent_messages,
}
use stationapiv.Gateway.Requests.Contacts.{ignores-IsSilent, guard-IsSilent}
use stationapiv.Gateway.Silence.{
  IsSilent, IsQuiet, IsMild→IsQuiet, bind-IsSilent, bind-IsQuiet, lift-IsSilent, lift-IsMild,
}
use stationapiv.Gateway.Updates.{send_persistent_message_update-NeverRaises}
use stationapiv.Gateway.Calls.{
  read_avatar-IsSilent, respond-IsSilent, respond-IsMild, src_avatar-IsSilent, dest_avatar-IsSilent,
}

on_history-IsSilent : {A : Type 0} (m : Exec History A) → IsSilent (lift (on_history m))
on_history-IsSilent m = lift-IsSilent (on_history m) (λ g. refl)

module _ (env : Env) (fuel : ℕ) where
  sender_of-IsSilent :
      (q : Ptr) (dest : ChatAvatar) (s : Sender) → IsSilent (sender_of env fuel q dest s)
  unfolding sender_of
  sender_of-IsSilent q dest (from_name name) = lift-IsSilent (pure (name, dest.address)) (λ g. refl)
  sender_of-IsSilent q dest (from_avatar presence id) =
      bind-IsSilent (src_avatar env fuel id) _ (src_avatar-IsSilent env fuel id) (λ p.
        bind-IsSilent (lift (ignores q p)) _ (ignores-IsSilent q p) (λ ignored.
          bind-IsSilent (lift (guard (not ignored) ignoring)) _ (guard-IsSilent (not ignored)) (λ x.
            bind-IsSilent (lift (read_avatar p)) _ (read_avatar-IsSilent p)
              (λ src. lift-IsSilent (pure (src.name, src.address)) (λ g. refl)))))

  pub handle_send_persistent_message-IsQuiet :
      (r : ReqSendPersistentMessage) → IsQuiet (handle_send_persistent_message env fuel r)
  unfolding handle_send_persistent_message
  handle_send_persistent_message-IsQuiet r =
      bind-IsQuiet (dest_avatar env fuel r.dest_name r.dest_address) _
        (dest_avatar-IsSilent env fuel _ _)
        (λ q. bind-IsQuiet (lift (read_avatar q)) _ (read_avatar-IsSilent q) (λ dest.
          bind-IsQuiet (sender_of env fuel q dest r.sender) _ (sender_of-IsSilent q dest r.sender)
            (λ sender.
              bind-IsQuiet (lift (on_history (store env (mail_of env r dest sender)))) _
                (on_history-IsSilent (store env (mail_of env r dest sender)))
                (λ m.
                  bind-IsQuiet (lift (on_history (record_persistent_message env dest m))) _
                    (on_history-IsSilent (record_persistent_message env dest m))
                    (λ y. bind-IsQuiet (lift (respond _)) _ (respond-IsSilent _) (λ x.
                      IsMild→IsQuiet (lift (send_persistent_message_update q m.header)) (
                        lift-IsMild _ (send_persistent_message_update-NeverRaises q m.header))))))))

pub handle_get_persistent_headers-IsQuiet :
    (env : Env) (r : ReqGetPersistentHeaders) → IsQuiet (handle_get_persistent_headers env r)
unfolding handle_get_persistent_headers
handle_get_persistent_headers-IsQuiet env r =
    bind-IsQuiet (lift (on_history (message_headers env r.avatar_id))) _
      (on_history-IsSilent (message_headers env r.avatar_id))
      (λ headers. IsMild→IsQuiet (lift (respond _)) (respond-IsMild _))

pub handle_get_persistent_message-IsQuiet :
    (env : Env) (r : ReqGetPersistentMessage) → IsQuiet (handle_get_persistent_message env r)
unfolding handle_get_persistent_message
handle_get_persistent_message-IsQuiet env r =
    bind-IsQuiet (lift (on_history (fetch env r.src_avatar_id r.message_id))) _
      (on_history-IsSilent (fetch env r.src_avatar_id r.message_id))
      (λ message. IsMild→IsQuiet (lift (respond _)) (respond-IsMild _))

update-IsQuiet :
    (m : Exec History ℕ) → IsQuiet (lift (on_history m) >> lift (pure {S = GatewayState} tt))
update-IsQuiet m =
    bind-IsQuiet (lift (on_history m)) (λ _. lift (pure tt)) (on_history-IsSilent m)
      (λ x. IsMild→IsQuiet (lift (pure tt)) (lift-IsMild (pure tt) (λ g. refl)))

pub handle_update_persistent_message-IsQuiet :
    (env : Env) (r : ReqUpdatePersistentMessage) → IsQuiet (handle_update_persistent_message env r)
unfolding handle_update_persistent_message
handle_update_persistent_message-IsQuiet env r = update-IsQuiet (
    execute env (
      statement update_message_status (int r.status ∷ int r.message_id ∷ int r.src_avatar_id ∷ [])))

pub handle_update_persistent_messages-IsQuiet :
    (env : Env) (r : ReqUpdatePersistentMessages)
    → IsQuiet (handle_update_persistent_messages env r)
unfolding handle_update_persistent_messages
handle_update_persistent_messages-IsQuiet env r = update-IsQuiet (
    execute env (
      statement bulk_update_message_status
        (int r.new_status ∷ int r.src_avatar_id ∷ wide r.category ∷ [])))
