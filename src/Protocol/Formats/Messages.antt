-- ===== src/Protocol/Formats/Messages.antt =====
-- The layouts of the requests about messages and stored mail, and their reading.
use stationapiv.Prelude.{ℕ, zero, suc, ◌≡◌, ◌∙◌, ◌++◌, List, [], ◌∷◌, some, All, arith}
use stationapiv.Wire.{Reader, read_u16, ◌>>=◌}
use stationapiv.Wire.RoundTrip.{bind-some}
use stationapiv.Protocol.Requests.{
  ReqSendInstantMessage, read_send_instant_message, ReqSendRoomMessage, read_send_room_message,
  ReqSendPersistentMessage, read_send_persistent_message, ReqGetPersistentHeaders,
  read_get_persistent_headers, ReqGetPersistentMessage, read_get_persistent_message,
  ReqUpdatePersistentMessage, read_update_persistent_message, ReqUpdatePersistentMessages,
  read_update_persistent_messages, Sender, from_avatar, from_name, read_sender,
}
use stationapiv.Protocol.Formats.{
  Field, u16, u32, nonzero, flag, wide, Fits, encode, encode-append, All-front, All-back, read-u16,
  read-nonzero, read-u32, read-flag, read-wide,
}

unfoldable pub send_instant_message_fields : ReqSendInstantMessage → List Field
send_instant_message_fields r =
    u32 r.track
    ∷ u32 r.src_avatar_id
    ∷ wide r.dest_name
    ∷ wide r.dest_address
    ∷ wide r.message
    ∷ wide r.oob
    ∷ wide r.src_address
    ∷ []

pub read-send_instant_message :
    (r : ReqSendInstantMessage) (rest : List ℕ)
    → All Fits (send_instant_message_fields r)
    → read_send_instant_message (encode (send_instant_message_fields r) rest) ≡ some (r, rest)
unfolding send_instant_message_fields read_send_instant_message
read-send_instant_message r rest h =
    bind-some _ _ (read-u32 r.track _ h.0)
    ∙ bind-some _ _ (read-u32 r.src_avatar_id _ h.1.0)
    ∙ bind-some _ _ (read-wide r.dest_name _ h.1.1.0)
    ∙ bind-some _ _ (read-wide r.dest_address _ h.1.1.1.0)
    ∙ bind-some _ _ (read-wide r.message _ h.1.1.1.1.0)
    ∙ bind-some _ _ (read-wide r.oob _ h.1.1.1.1.1.0)
    ∙ bind-some _ _ (read-wide r.src_address _ h.1.1.1.1.1.1.0)

unfoldable pub send_room_message_fields : ReqSendRoomMessage → List Field
send_room_message_fields r =
    u32 r.track
    ∷ u32 r.src_avatar_id
    ∷ wide r.dest_room_address
    ∷ wide r.message
    ∷ wide r.oob
    ∷ wide r.src_address
    ∷ []

pub read-send_room_message :
    (r : ReqSendRoomMessage) (rest : List ℕ)
    → All Fits (send_room_message_fields r)
    → read_send_room_message (encode (send_room_message_fields r) rest) ≡ some (r, rest)
unfolding send_room_message_fields read_send_room_message
read-send_room_message r rest h =
    bind-some _ _ (read-u32 r.track _ h.0)
    ∙ bind-some _ _ (read-u32 r.src_avatar_id _ h.1.0)
    ∙ bind-some _ _ (read-wide r.dest_room_address _ h.1.1.0)
    ∙ bind-some _ _ (read-wide r.message _ h.1.1.1.0)
    ∙ bind-some _ _ (read-wide r.oob _ h.1.1.1.1.0)
    ∙ bind-some _ _ (read-wide r.src_address _ h.1.1.1.1.1.0)

unfoldable pub sender_fields : Sender → List Field
sender_fields (from_avatar presence id) = nonzero presence ∷ u32 id ∷ []
sender_fields (from_name name) = u16 0 ∷ wide name ∷ []

unfoldable pub send_persistent_message_fields : ReqSendPersistentMessage → List Field
send_persistent_message_fields r =
    u32 r.track
    ∷ (sender_fields r.sender
        ++ wide r.dest_name
          ∷ wide r.dest_address
          ∷ wide r.subject
          ∷ wide r.msg
          ∷ wide r.oob
          ∷ wide r.category
          ∷ flag r.enforce_inbox_limit
          ∷ u32 r.category_limit
          ∷ [])

read-sender {ℓ} :
    {B : Type ℓ} (s : Sender) (f : Sender → Reader B) (rest : List ℕ)
    → All Fits (sender_fields s)
    → (read_u16 >>= λ n. read_sender n >>= f) (encode (sender_fields s) rest) ≡ f s rest
unfolding sender_fields read_sender
read-sender (from_avatar zero id) f rest h = absurd (omega arith)
read-sender (from_avatar (suc n) id) f rest h =
    bind-some _ _ (read-nonzero (suc n) _ h.0)
    ∙ bind-some _ f (bind-some _ _ (read-u32 id rest h.1.0))
read-sender (from_name name) f rest h =
    bind-some _ _ (read-u16 0 _ h.0) ∙ bind-some _ f (bind-some _ _ (read-wide name rest h.1.0))

pub read-send_persistent_message :
    (r : ReqSendPersistentMessage) (rest : List ℕ)
    → All Fits (send_persistent_message_fields r)
    → read_send_persistent_message (encode (send_persistent_message_fields r) rest) ≡ some (r, rest)
unfolding send_persistent_message_fields read_send_persistent_message
read-send_persistent_message r rest h =
    let tail : List Field =
      wide r.dest_name
      ∷ wide r.dest_address
      ∷ wide r.subject
      ∷ wide r.msg
      ∷ wide r.oob
      ∷ wide r.category
      ∷ flag r.enforce_inbox_limit
      ∷ u32 r.category_limit
      ∷ [] in
    let b : All Fits tail = All-back (sender_fields r.sender) tail h.1 in
    bind-some _ _ (read-u32 r.track _ h.0)
    ∙ rw (encode-append (sender_fields r.sender) tail rest) (
        read-sender r.sender _ _ (All-front (sender_fields r.sender) tail h.1)
        ∙ bind-some _ _ (read-wide r.dest_name _ b.0)
        ∙ bind-some _ _ (read-wide r.dest_address _ b.1.0)
        ∙ bind-some _ _ (read-wide r.subject _ b.1.1.0)
        ∙ bind-some _ _ (read-wide r.msg _ b.1.1.1.0)
        ∙ bind-some _ _ (read-wide r.oob _ b.1.1.1.1.0)
        ∙ bind-some _ _ (read-wide r.category _ b.1.1.1.1.1.0)
        ∙ bind-some _ _ (read-flag r.enforce_inbox_limit _ b.1.1.1.1.1.1.0)
        ∙ bind-some _ _ (read-u32 r.category_limit _ b.1.1.1.1.1.1.1.0))

unfoldable pub get_persistent_headers_fields : ReqGetPersistentHeaders → List Field
get_persistent_headers_fields r = u32 r.track ∷ u32 r.avatar_id ∷ wide r.category ∷ []

pub read-get_persistent_headers :
    (r : ReqGetPersistentHeaders) (rest : List ℕ)
    → All Fits (get_persistent_headers_fields r)
    → read_get_persistent_headers (encode (get_persistent_headers_fields r) rest) ≡ some (r, rest)
unfolding get_persistent_headers_fields read_get_persistent_headers
read-get_persistent_headers r rest h =
    bind-some _ _ (read-u32 r.track _ h.0)
    ∙ bind-some _ _ (read-u32 r.avatar_id _ h.1.0)
    ∙ bind-some _ _ (read-wide r.category _ h.1.1.0)

unfoldable pub get_persistent_message_fields : ReqGetPersistentMessage → List Field
get_persistent_message_fields r = u32 r.track ∷ u32 r.src_avatar_id ∷ u32 r.message_id ∷ []

pub read-get_persistent_message :
    (r : ReqGetPersistentMessage) (rest : List ℕ)
    → All Fits (get_persistent_message_fields r)
    → read_get_persistent_message (encode (get_persistent_message_fields r) rest) ≡ some (r, rest)
unfolding get_persistent_message_fields read_get_persistent_message
read-get_persistent_message r rest h =
    bind-some _ _ (read-u32 r.track _ h.0)
    ∙ bind-some _ _ (read-u32 r.src_avatar_id _ h.1.0)
    ∙ bind-some _ _ (read-u32 r.message_id _ h.1.1.0)

unfoldable pub update_persistent_message_fields : ReqUpdatePersistentMessage → List Field
update_persistent_message_fields r =
    u32 r.track ∷ u32 r.src_avatar_id ∷ u32 r.message_id ∷ u32 r.status ∷ []

pub read-update_persistent_message :
    (r : ReqUpdatePersistentMessage) (rest : List ℕ)
    → All Fits (update_persistent_message_fields r)
    → read_update_persistent_message (encode (update_persistent_message_fields r) rest)
      ≡ some (r, rest)
unfolding update_persistent_message_fields read_update_persistent_message
read-update_persistent_message r rest h =
    bind-some _ _ (read-u32 r.track _ h.0)
    ∙ bind-some _ _ (read-u32 r.src_avatar_id _ h.1.0)
    ∙ bind-some _ _ (read-u32 r.message_id _ h.1.1.0)
    ∙ bind-some _ _ (read-u32 r.status _ h.1.1.1.0)

unfoldable pub update_persistent_messages_fields : ReqUpdatePersistentMessages → List Field
update_persistent_messages_fields r =
    u32 r.track
    ∷ u32 r.src_avatar_id
    ∷ u32 r.current_status
    ∷ u32 r.new_status
    ∷ wide r.category
    ∷ []

pub read-update_persistent_messages :
    (r : ReqUpdatePersistentMessages) (rest : List ℕ)
    → All Fits (update_persistent_messages_fields r)
    → read_update_persistent_messages (encode (update_persistent_messages_fields r) rest)
      ≡ some (r, rest)
unfolding update_persistent_messages_fields read_update_persistent_messages
read-update_persistent_messages r rest h =
    bind-some _ _ (read-u32 r.track _ h.0)
    ∙ bind-some _ _ (read-u32 r.src_avatar_id _ h.1.0)
    ∙ bind-some _ _ (read-u32 r.current_status _ h.1.1.0)
    ∙ bind-some _ _ (read-u32 r.new_status _ h.1.1.1.0)
    ∙ bind-some _ _ (read-wide r.category _ h.1.1.1.1.0)
