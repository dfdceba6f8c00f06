-- ===== src/Messages/Mailbox.antt =====
-- What comes back from a database that keeps its rows: a fetched message is the stored one.
use native.Mathlib.Nat.{mod-eq_of_lt}
use stationapiv.Prelude.{
  ℕ, ◌^◌, ◌<◌, ◌≡◌, refl, sym, ap, ◌∙◌, ◌++◌, Bool, List, [], ◌∷◌, Text, All, ◌==◌, if◌then◌else◌,
  Bool-cases, ◌⊎◌, inl, inr, arith,
}
use stationapiv.Exec.{Exec, Result, ok, raised, fault, continue, when, pure, ◌>>=◌, ◌>>◌}
use mathlib.Core.Path.{subst}
use stationapiv.Strings.{from_wide_string, to_wide_string, c_str}
use stationapiv.Strings.Narrowing.{to_wide_string-from_wide_string}
use stationapiv.Storage.{
  Env, done, rows, History, Statement, Row, int, statement, execute, query, done_or_raise,
  rows_or_raise, column_int, column_text, column_blob, as_int, as_text, as_blob, store_message,
  get_persistent_message, get_message_headers, update_message_status,
}
use stationapiv.Wire.{write_uint, write_units}
use stationapiv.Messages.{PersistentHeader, PersistentMessage, state_code, read}
use stationapiv.Messages.Service.{
  oob_bytes, oob_units, stored_values, read_header, read_headers, read_message, store,
  message_headers, read_columns, set_status, fetch,
}

-- Units of ASCII other than NUL, which the narrow columns can keep.
abbrev pub IsPlain : Text → Type 0
IsPlain = All (λ u. (0 < u) × (u < 128))

-- A message that the columns can keep.
pub record IsStorable (m : PersistentMessage) : Type 0 where
  pub from_name : IsPlain m.header.from_name
  pub from_address : IsPlain m.header.from_address
  pub subject : IsPlain m.header.subject
  pub folder : IsPlain m.header.folder
  pub category : IsPlain m.header.category
  pub message : IsPlain m.message
  pub oob : All (λ u. u < 2 ^ 16) m.oob

plain_bytes : (s : Text) → IsPlain s → c_str (c_str (from_wide_string s)) ≡ from_wide_string s
unfolding c_str from_wide_string
plain_bytes [] h = refl
plain_bytes (u ∷ s) h = ground (arith, plain_bytes s h.1)

plain_ascii : (s : Text) → IsPlain s → All (λ u. u < 128) s
plain_ascii [] h = tt
plain_ascii (u ∷ s) h = (h.0.1, plain_ascii s h.1)

-- A plain text comes back from its column.
plain_column :
    (signed : Bool) (s : Text)
    → IsPlain s
    → to_wide_string signed (c_str (c_str (from_wide_string s))) ≡ s
plain_column signed s h =
    ap (to_wide_string signed) (plain_bytes s h)
    ∙ to_wide_string-from_wide_string signed s (plain_ascii s h)

oob_units-oob_bytes : (oob : Text) → All (λ u. u < 2 ^ 16) oob → oob_units (oob_bytes oob) ≡ oob
unfolding oob_units oob_bytes write_units write_uint
oob_units-oob_bytes [] h = refl
oob_units-oob_bytes (u ∷ us) h = ground (arith, oob_units-oob_bytes us h.1)

-- The row of a stored message, under its id.
abbrev pub row_of : ℕ → PersistentMessage → Row
row_of id m = int id ∷ stored_values m

abbrev pub with_id : ℕ → PersistentMessage → PersistentMessage
with_id id m = record m { header = record m.header { message_id = id } }

read_columns-row_of :
    (signed : Bool) (id : ℕ) (m : PersistentMessage) (h : History)
    → IsStorable m
    → read_columns signed id m.header.avatar_id (row_of id m) h ≡ (ok (with_id id m).header, h)
unfolding read_columns stored_values column_int column_text as_int as_text
read_columns-row_of signed id m h p =
    rw
      (
        plain_column signed m.header.from_name p.from_name,
        plain_column signed m.header.from_address p.from_address,
        plain_column signed m.header.subject p.subject,
        plain_column signed m.header.folder p.folder,
        plain_column signed m.header.category p.category,
      )
      refl

read_header-row_of :
    (signed : Bool) (id : ℕ) (m : PersistentMessage) (h : History)
    → IsStorable m
    → read_header signed (row_of id m) h ≡ (ok (with_id id m).header, h)
unfolding read_header stored_values column_int as_int
read_header-row_of signed id m h p = read_columns-row_of signed id m h p

-- The statements of a fetch.
abbrev pub selects : ℕ → ℕ → Statement
selects avatar_id id = statement get_persistent_message (int id ∷ int avatar_id ∷ [])

abbrev pub marks_read : ℕ → ℕ → Statement
marks_read avatar_id id = statement update_message_status (int 3 ∷ int id ∷ int avatar_id ∷ [])

-- The rows of stored messages, each under its id.
abbrev pub rows_of : List (ℕ × PersistentMessage) → List Row
rows_of [] = []
rows_of (m ∷ ms) = row_of m.0 m.1 ∷ rows_of ms

abbrev pub headers_of : List (ℕ × PersistentMessage) → List PersistentHeader
headers_of [] = []
headers_of (m ∷ ms) = (with_id m.0 m.1).header ∷ headers_of ms

abbrev Marked : ℕ → ℕ → History → History → Type 0
Marked avatar_id id t u = (u ≡ t) ⊎ (u ≡ t ++ marks_read avatar_id id ∷ [])

module _ (env : Env) where
  read_message-row_of :
      (id : ℕ) (m : PersistentMessage) (h : History)
      → IsStorable m
      → read_message env m.header.avatar_id id (row_of id m ∷ []) h ≡ (ok (with_id id m), h)
  unfolding read_message stored_values column_text column_blob as_text as_blob
  read_message-row_of id m h p =
      rw
        (
          read_columns-row_of env.char_is_signed id m h p,
          plain_column env.char_is_signed m.message p.message,
          oob_units-oob_bytes m.oob p.oob,
        )
        refl

  -- If the row of a storable message is selected, and an update succeeds, a fetch returns the
  -- message, its status as stored, after the update to READ if it is new and no other statement if
  -- not.
  fetch-row_of :
      (id n : ℕ) (m : PersistentMessage) (h : History)
      → IsStorable m
      → env.answer (h ++ selects m.header.avatar_id id ∷ []) ≡ rows (row_of id m ∷ [])
      → env.answer
          ((h ++ selects m.header.avatar_id id ∷ []) ++ marks_read m.header.avatar_id id ∷ [])
        ≡ done n
      → fetch env m.header.avatar_id id h ≡ (
        ok (with_id id m),
        if m.header.status == 1
            then (h ++ selects m.header.avatar_id id ∷ []) ++ marks_read m.header.avatar_id id ∷ []
            else h ++ selects m.header.avatar_id id ∷ [],
      )
  unfolding fetch query rows_or_raise set_status execute done_or_raise state_code
  fetch-row_of id n m h p selected updated =
      rw (selected, read_message-row_of id m (h ++ selects m.header.avatar_id id ∷ []) p)
        (elim (Bool-cases (m.header.status == 1)) [
          | inl e ↦ rw (e, updated) refl
          | inr e ↦ rw e refl
        ])

  -- A storable message that was stored with an id of 32 bits, and whose row with that id is
  -- selected later, is fetched as the store left it, with its id; an update, where there is one,
  -- must succeed.
  pub fetch-store :
      (id n : ℕ) (m : PersistentMessage) (h later : History)
      → IsStorable m
      → id < 2 ^ 32
      → env.answer (h ++ statement store_message (stored_values m) ∷ []) ≡ done id
      → env.answer (later ++ selects m.header.avatar_id id ∷ []) ≡ rows (row_of id m ∷ [])
      → env.answer
          ((later ++ selects m.header.avatar_id id ∷ []) ++ marks_read m.header.avatar_id id ∷ [])
        ≡ done n
      → (fetch env m.header.avatar_id id later).0 ≡ (store env m h).0
  unfolding store execute done_or_raise
  fetch-store id n m h later p small stored selected updated =
      rw (fetch-row_of id n m later p selected updated, stored, mod-eq_of_lt small) refl

  read_headers-rows_of :
      (ms : List (ℕ × PersistentMessage)) (h : History)
      → All (λ m. IsStorable m.1) ms
      → read_headers env.char_is_signed (rows_of ms) h ≡ (ok (headers_of ms), h)
  unfolding read_headers
  read_headers-rows_of [] h p = refl
  read_headers-rows_of (m ∷ ms) h p =
      rw (read_header-row_of env.char_is_signed m.0 m.1 h p.0, read_headers-rows_of ms h p.1) refl

  -- The headers of a mailbox are those of the selected messages, in the order of their rows, each
  -- with its id, and the query is the only statement.
  message_headers-rows_of :
      (avatar_id : ℕ) (ms : List (ℕ × PersistentMessage)) (h : History)
      → All (λ m. IsStorable m.1) ms
      → env.answer (h ++ statement get_message_headers (int avatar_id ∷ []) ∷ [])
        ≡ rows (rows_of ms)
      → message_headers env avatar_id h
        ≡ (ok (headers_of ms), h ++ statement get_message_headers (int avatar_id ∷ []) ∷ [])
  unfolding message_headers query rows_or_raise
  message_headers-rows_of avatar_id ms h p selected =
      rw
        (
          selected,
          read_headers-rows_of ms (h ++ statement get_message_headers (int avatar_id ∷ []) ∷ []) p,
        )
        refl

  read_message_history :
      (avatar_id id : ℕ) (rs : List Row) (h : History) → (read_message env avatar_id id rs h).1 ≡ h
  unfolding read_message read_header column_text
  read_message_history avatar_id id [] h = refl
  read_message_history avatar_id id (row ∷ rs) h = ground arith

  abbrev mark : ℕ → ℕ → PersistentMessage → Exec History PersistentMessage
  mark avatar_id id m = do when (m.header.status == 1) (set_status env avatar_id id read); pure m

  mark-Marked :
      (avatar_id id : ℕ) (m : PersistentMessage) (t : History)
      → Marked avatar_id id t (mark avatar_id id m t).1
  unfolding set_status execute state_code
  mark-Marked avatar_id id m t = ground arith

  read-Marked :
      (avatar_id id : ℕ) (o : Result PersistentMessage) (t : History)
      → Marked avatar_id id t (continue o (mark avatar_id id) t).1
  read-Marked avatar_id id (ok m) t = mark-Marked avatar_id id m t
  read-Marked avatar_id id (raised e) t = inl refl
  read-Marked avatar_id id fault t = inl refl

  rows-Marked :
      (avatar_id id : ℕ) (o : Result (List Row)) (t : History)
      → Marked avatar_id id t
          (continue o (λ rs. read_message env avatar_id id rs >>= mark avatar_id id) t).1
  rows-Marked avatar_id id (ok rs) t =
      subst
        (λ u.
          Marked avatar_id id t
            (continue (read_message env avatar_id id rs t).0 (mark avatar_id id) u).1)
        (sym (read_message_history avatar_id id rs t))
        (read-Marked avatar_id id (read_message env avatar_id id rs t).0 t)
  rows-Marked avatar_id id (raised e) t = inl refl
  rows-Marked avatar_id id fault t = inl refl

  -- Whatever the database answers, a fetch selects the one message and does nothing else to the
  -- database but perhaps mark that message as read.
  pub fetch_history :
      (avatar_id id : ℕ) (h : History)
      → ((fetch env avatar_id id h).1 ≡ h ++ selects avatar_id id ∷ [])
        ⊎ ((fetch env avatar_id id h).1
            ≡ (h ++ selects avatar_id id ∷ []) ++ marks_read avatar_id id ∷ [])
  unfolding fetch query state_code
  fetch_history avatar_id id h =
      rows-Marked avatar_id id (rows_or_raise (env.answer (h ++ selects avatar_id id ∷ [])))
        (h ++ selects avatar_id id ∷ [])
