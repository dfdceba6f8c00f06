-- ===== src/Messages/Service.antt =====
-- The methods of src/stationchat/PersistentMessageService.cpp. Their state is the list of
-- statements executed so far.
use stationapiv.Prelude.{ℕ, ◌+◌, ◌*◌, ◌^◌, ◌%◌, Bool, List, [], ◌∷◌, Text, length, ◌==◌}
use stationapiv.Enums.ResultCode.{pmsgnotfound}
use stationapiv.Exec.{Exec, chat_result, pure, raise, when, ◌>>=◌, ◌>>◌}
use stationapiv.Storage.{
  Env, History, Row, Value, int, blob, statement, execute, query, wide, column_int, column_text,
  column_blob, store_message, get_message_headers, get_persistent_message, update_message_status,
  bulk_update_message_status,
}
use stationapiv.Wire.{write_units}
use stationapiv.Messages.{
  PersistentState, state_code, new, read, PersistentHeader, PersistentMessage,
}

-- The bytes of the 16-bit units, and the units of the bytes: an odd byte at the end is dropped.
unfoldable pub oob_bytes : Text → List ℕ
oob_bytes oob = write_units 2 (length oob) oob

unfoldable pub oob_units : List ℕ → Text
oob_units [] = []
oob_units (b ∷ []) = []
oob_units (b ∷ c ∷ bs) = (b + 256 * c) ∷ oob_units bs

-- What `StoreMessage` binds, in the order of its columns.
unfoldable pub stored_values : PersistentMessage → List Value
unfolding oob_bytes
stored_values m =
    int m.header.avatar_id
    ∷ wide m.header.from_name
    ∷ wide m.header.from_address
    ∷ wide m.header.subject
    ∷ int m.header.sent_time
    ∷ int m.header.status
    ∷ wide m.header.folder
    ∷ wide m.header.category
    ∷ wide m.message
    ∷ blob (oob_bytes m.oob)
    ∷ []

-- The columns of a row after the two ids
unfoldable pub read_columns : Bool → ℕ → ℕ → Row → Exec History PersistentHeader
unfolding column_int
read_columns signed message_id avatar_id row = do
  from_name ← column_text signed row 2
  from_address ← column_text signed row 3
  subject ← column_text signed row 4
  sent_time ← column_int row 5
  status ← column_int row 6
  folder ← column_text signed row 7
  category ← column_text signed row 8
  pure (record {
    message_id = message_id;
    avatar_id = avatar_id;
    from_name = from_name;
    from_address = from_address;
    subject = subject;
    sent_time = sent_time;
    status = status;
    folder = folder;
    category = category;
  })

-- A row of `id` and the stored columns, as a header.
unfoldable pub read_header : Bool → Row → Exec History PersistentHeader
unfolding column_int read_columns
read_header signed row = do
  message_id ← column_int row 0
  avatar_id ← column_int row 1
  read_columns signed message_id avatar_id row

-- The `while` loop over the rows
unfoldable pub read_headers : Bool → List Row → Exec History (List PersistentHeader)
read_headers signed [] = pure []
read_headers signed (row ∷ rest) = do
  header ← read_header signed row
  headers ← read_headers signed rest
  pure (header ∷ headers)

module _ (env : Env) where
  -- `StoreMessage`: the message with its new id, which the caller's reference receives
  unfoldable pub store : PersistentMessage → Exec History PersistentMessage
  store m = do
    rowid ← execute env (statement store_message (stored_values m))
    pure (record m { header = record m.header { message_id = rowid % 2 ^ 32 } })

  -- `GetMessageHeaders`
  unfoldable pub message_headers : ℕ → Exec History (List PersistentHeader)
  message_headers avatar_id = do
    rows ← query env (statement get_message_headers (int avatar_id ∷ []))
    read_headers env.char_is_signed rows

  -- `UpdateMessageStatus`
  unfoldable pub set_status : ℕ → ℕ → PersistentState → Exec History (Unit {0})
  set_status avatar_id message_id status =
      execute env (
        statement update_message_status
          (int (state_code status) ∷ int message_id ∷ int avatar_id ∷ []))
      >> pure tt

  -- The first row as a message, under the ids that were asked for.
  unfoldable pub read_message : ℕ → ℕ → List Row → Exec History PersistentMessage
  read_message avatar_id message_id [] = raise (chat_result pmsgnotfound)
  read_message avatar_id message_id (row ∷ rest) = do
    header ← read_columns env.char_is_signed message_id avatar_id row
    message ← column_text env.char_is_signed row 9
    pure (record { header = header; message = message; oob = oob_units (column_blob row 10) })

  -- `GetPersistentMessage`: a new message becomes a read one, in the database only.
  unfoldable pub fetch : ℕ → ℕ → Exec History PersistentMessage
  fetch avatar_id message_id = do
    rows ← query env (statement get_persistent_message (int message_id ∷ int avatar_id ∷ []))
    m ← read_message avatar_id message_id rows
    when (m.header.status == state_code new) (set_status avatar_id message_id read)
    pure m

  -- `BulkUpdateMessageStatus`
  unfoldable pub set_all_status : ℕ → Text → PersistentState → Exec History (Unit {0})
  set_all_status avatar_id category new_status =
      execute env (
        statement bulk_update_message_status
          (int (state_code new_status) ∷ int avatar_id ∷ wide category ∷ []))
      >> pure tt
