-- ===== src/Messages/Examples.antt =====
-- A letter through a database that keeps one row.
use stationapiv.Prelude.{◌≡◌, refl, ◌⊎◌, true, [], ◌∷◌, codes, arith}
use stationapiv.Enums.ResultCode.{pmsgnotfound}
use stationapiv.Exec.{raised, chat_result}
use stationapiv.Storage.{
  no_website, Env, Answer, done, rows, History, Sql, statement, query, rows_or_raise, store_message,
  get_persistent_message, get_message_headers,
}
use stationapiv.Wire.{write_units, write_uint}
use stationapiv.Messages.{PersistentMessage}
use stationapiv.Messages.Service.{oob_bytes, oob_units, stored_values, store, fetch, read_message}
use stationapiv.Messages.Mailbox.{
  IsStorable, row_of, rows_of, selects, marks_read, fetch-store, fetch_history,
}

-- A new letter with an attachment of one unit.
abbrev letter : PersistentMessage
letter = record {
  header = record {
    message_id = 0;
    avatar_id = 100;
    from_name = codes "ann";
    from_address = codes "swg";
    subject = codes "hi";
    sent_time = 9;
    status = 1;
    folder = [];
    category = codes "auction";
  };
  message = codes "text";
  oob = 0x3a9 ∷ [];
}

letter-IsStorable : IsStorable letter
letter-IsStorable = record {
  from_name = ground arith;
  from_address = ground arith;
  subject = ground arith;
  folder = tt;
  category = ground arith;
  message = ground arith;
  oob = ground arith;
}

by_sql : Sql → Answer
by_sql get_persistent_message = rows (row_of 5 letter ∷ [])
by_sql get_message_headers = rows (rows_of ((5, letter) ∷ []))
by_sql _ = done 5

last_answer : History → Answer
last_answer [] = done 0
last_answer (s ∷ []) = by_sql s.sql
last_answer (s ∷ t ∷ h) = last_answer (t ∷ h)

abbrev shelf : Env
shelf = record {
  answer = last_answer;
  char_is_signed = true;
  unix_time = 9;
  put_time = λ t. [];
  website = no_website;
}

abbrev bare : Env
bare = record {
  answer = λ h. rows [];
  char_is_signed = true;
  unix_time = 9;
  put_time = λ t. [];
  website = no_website;
}

not_found : fetch bare 100 5 [] ≡ (raised (chat_result pmsgnotfound), selects 100 5 ∷ [])
unfolding fetch query rows_or_raise read_message
not_found = refl

attachment : oob_units (oob_bytes (0x3a9 ∷ 1 ∷ [])) ≡ 0x3a9 ∷ 1 ∷ []
unfolding oob_units oob_bytes write_units write_uint
attachment = refl

fetch-store_example :
    (fetch shelf 100 5 (statement store_message (stored_values letter) ∷ [])).0
    ≡ (store shelf letter []).0
unfolding last_answer by_sql
fetch-store_example =
    fetch-store shelf 5 5 letter [] (statement store_message (stored_values letter) ∷ [])
      letter-IsStorable (ground arith) refl refl refl

fetch_history_example :
    ((fetch shelf 100 5 []).1 ≡ selects 100 5 ∷ [])
    ⊎ ((fetch shelf 100 5 []).1 ≡ selects 100 5 ∷ marks_read 100 5 ∷ [])
fetch_history_example = fetch_history shelf 100 5 []
