-- ===== src/Gateway/Handlers/Mail.antt =====
-- The handlers of src/stationchat/protocol/Protocol.cpp for the mail.
use stationapiv.Prelude.{ℕ, ◌%◌, ◌^◌, not, some, [], ◌∷◌, Text}
use stationapiv.Enums.ResultCode.{ignoring}
use stationapiv.Exec.{pure, guard}
use stationapiv.Exec.Fuel.{Run, lift, ◌>>=◌, ◌>>◌}
use stationapiv.Storage.{
  Env, statement, execute, int, wide, update_message_status, bulk_update_message_status,
}
use stationapiv.Avatar.{Ptr, ChatAvatar}
use stationapiv.Messages.{PersistentMessage, new, state_code}
use stationapiv.Messages.Service.{store, message_headers, fetch}
use stationapiv.Protocol.Requests.{
  Sender, from_name, from_avatar, ReqSendPersistentMessage, ReqGetPersistentHeaders,
  ReqGetPersistentMessage, ReqUpdatePersistentMessage, ReqUpdatePersistentMessages,
}
use stationapiv.Website.Mirror.{record_persistent_message}
use stationapiv.Gateway.{on_history, GatewayState, respond, read_avatar}
use stationapiv.Gateway.Outbox.{send_persistent_message_update}
use stationapiv.Gateway.Handlers.{src_avatar, dest_avatar}
use stationapiv.Gateway.Handlers.Contacts.{ignores}

-- The message that is stored, `message` of the handler
abbrev pub mail_of : Env → ReqSendPersistentMessage → ChatAvatar → Text × Text → PersistentMessage
mail_of env r dest sender = record {
  header = record {
    message_id = 0;
    avatar_id = dest.avatar_id;
    from_name = sender.0;
    from_address = sender.1;
    subject = r.subject;
    sent_time = env.unix_time % 2 ^ 32;
    status = state_code new;
    folder = [];
    category = r.category;
  };
  message = r.msg;
  oob = r.oob;
}

module _ (env : Env) (fuel : ℕ) where
  -- The name and the address of the sender. Without an avatar the address is the recipient's.
  unfoldable pub sender_of : Ptr → ChatAvatar → Sender → Run GatewayState (Text × Text)
  unfolding src_avatar ignores read_avatar
  sender_of q dest (from_name name) = lift (pure (name, dest.address))
  sender_of q dest (from_avatar presence id) = do
    p ← src_avatar env fuel id
    ignored ← lift (ignores q p)
    lift (guard (not ignored) ignoring)
    src ← lift (read_avatar p)
    lift (pure (src.name, src.address))

  unfoldable pub handle_send_persistent_message :
      ReqSendPersistentMessage → Run GatewayState (Unit {0})
  unfolding dest_avatar read_avatar sender_of store record_persistent_message
      send_persistent_message_update
  handle_send_persistent_message r = do
    q ← dest_avatar env fuel r.dest_name r.dest_address
    dest ← lift (read_avatar q)
    sender ← sender_of q dest r.sender
    message ← lift (on_history (store env (mail_of env r dest sender)))
    lift (on_history (record_persistent_message env dest message))
    lift (respond (λ x. record x { message_id = some message.header.message_id }))
    lift (send_persistent_message_update q message.header)

unfoldable pub handle_get_persistent_headers :
    Env → ReqGetPersistentHeaders → Run GatewayState (Unit {0})
unfolding message_headers
handle_get_persistent_headers env r = do
  headers ← lift (on_history (message_headers env r.avatar_id))
  lift (respond (λ x. record x { headers = headers }))

unfoldable pub handle_get_persistent_message :
    Env → ReqGetPersistentMessage → Run GatewayState (Unit {0})
unfolding fetch
handle_get_persistent_message env r = do
  message ← lift (on_history (fetch env r.src_avatar_id r.message_id))
  lift (respond (λ x. record x { message = some message }))

-- `UpdateMessageStatus` and `BulkUpdateMessageStatus` with the status of a request, which may be no
-- enumerator.
unfoldable pub handle_update_persistent_message :
    Env → ReqUpdatePersistentMessage → Run GatewayState (Unit {0})
handle_update_persistent_message env r =
    lift (
      on_history (
        execute env (
          statement update_message_status
            (int r.status ∷ int r.message_id ∷ int r.src_avatar_id ∷ []))))
    >> lift (pure tt)

unfoldable pub handle_update_persistent_messages :
    Env → ReqUpdatePersistentMessages → Run GatewayState (Unit {0})
handle_update_persistent_messages env r =
    lift (
      on_history (
        execute env (
          statement bulk_update_message_status
            (int r.new_status ∷ int r.src_avatar_id ∷ wide r.category ∷ []))))
    >> lift (pure tt)
