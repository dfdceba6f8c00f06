-- ===== src/Storage.antt =====
-- The database as the services see it: src/stationapi/MariaDB.hpp's prepare, bind, step and column
-- calls. The database itself is a parameter, a function of the statements executed so far.
use stationapiv.Prelude.{
  false, ℕ, ◌≡◌, refl, inl, inr, Option-cases, Bool, List, [], ◌∷◌, ◌++◌, Option, none, some, Text,
  get_or,
}
use stationapiv.Exec.{database, standard, Result, ok, raised, Exec, pure, raise, undefined}
use stationapiv.Strings.Numbers.{stoi}
use stationapiv.Strings.{from_wide_string, to_wide_string, c_str}

-- The SQL texts of the services, each under the name of the method that prepares it.
pub data Sql : Type 0 where
  persist_friend persist_ignore remove_friend remove_ignore update_friend_comment : Sql
  load_avatar_by_name load_avatar_by_id insert_avatar update_avatar delete_avatar : Sql
  load_friend_list load_ignore_list : Sql
  load_rooms persist_new_room delete_room : Sql
  load_moderators persist_moderator delete_moderator : Sql
  load_administrators persist_administrator delete_administrator : Sql
  load_banned persist_banned delete_banned : Sql
  store_message get_message_headers get_persistent_message : Sql
  update_message_status bulk_update_message_status : Sql
  website_user_link website_status website_mail : Sql

-- A bound parameter or a column. A parameter that no call binds is NULL.
pub data Value : Type 0 where
  null : Value
  -- an `int` of 32 bits, by its value as a `uint32_t`
  int : ℕ → Value
  text : Text → Value
  blob : List ℕ → Value

-- The parameters stand in the order in which the SQL text lists their columns.
pub record Statement : Type 0 where
  pub sql : Sql
  pub params : List Value

abbrev pub Row : Type 0
Row = List Value

-- What preparing and stepping a statement comes to.
pub data Answer : Type 0 where
  -- a code other than MARIADB_OK, MARIADB_ROW and MARIADB_DONE, thrown as `MariaDBException`
  failed : ℕ → Answer
  -- MARIADB_DONE, with `mariadb_last_insert_rowid`
  done : ℕ → Answer
  -- the rows that MARIADB_ROW hands out before MARIADB_DONE
  rows : List Row → Answer

abbrev pub History : Type 0
History = List Statement

-- `ColumnInfo` of src/stationchat/WebsiteIntegrationService.hpp: whether a table has a column of the
-- website, and whether it is a date.
pub record ColumnInfo : Type 0 where
  pub exists : Bool
  pub is_date_time : Bool

-- What the constructor of `WebsiteIntegrationService` finds in the configuration and in the tables.
pub record WebsiteTables : Type 0 where
  pub enabled : Bool
  pub user_link_created_at : ColumnInfo
  pub user_link_updated_at : ColumnInfo
  pub status_created_at : ColumnInfo
  pub status_updated_at : ColumnInfo
  pub status_login_at : ColumnInfo
  pub status_logout_at : ColumnInfo
  pub mail_created_at : ColumnInfo
  pub mail_updated_at : ColumnInfo

abbrev pub no_column : ColumnInfo
no_column = record { exists = false; is_date_time = false }

-- The integration is switched off.
abbrev pub no_website : WebsiteTables
no_website = record {
  enabled = false;
  user_link_created_at = no_column;
  user_link_updated_at = no_column;
  status_created_at = no_column;
  status_updated_at = no_column;
  status_login_at = no_column;
  status_logout_at = no_column;
  mail_created_at = no_column;
  mail_updated_at = no_column;
}

-- What the program does not implement: the database, the sign of the platform's `char`, the time at
-- which a request is handled, and `gmtime_r` with `std::put_time`; and the tables of the website.
pub record Env : Type 0 where
  pub answer : History → Answer
  pub char_is_signed : Bool
  pub unix_time : ℕ
  pub put_time : ℕ → Text
  pub website : WebsiteTables

-- `MARIADB_ROW` of src/stationapi/MariaDB.hpp
abbrev pub mariadb_row : ℕ
mariadb_row = 100

abbrev pub statement : Sql → List Value → Statement
statement s ps = record { sql = s; params = ps }

-- `mariadb_bind_text(stmt, i, FromWideString(s).c_str(), -1, 0)`
abbrev pub wide : Text → Value
wide s = text (c_str (from_wide_string s))

-- `mariadb_column_int`: 0 for NULL, else `std::stoi` of the text of the column, where `none` is an
-- exception. The text of an `int` is its decimal number.
unfoldable pub as_int : Value → Option ℕ
unfolding stoi
as_int null = some 0
as_int (int n) = some n
as_int (text t) = stoi (c_str t)
as_int (blob b) = stoi (c_str b)

unfoldable pub column_int {ℓ} : {S : Type ℓ} → Row → ℕ → Exec S ℕ
unfolding as_int
column_int row i = elim (as_int (get_or row i null)) [ none ↦ raise standard | some n ↦ pure n ]

-- `mariadb_column_blob` with `mariadb_column_bytes`
unfoldable pub as_blob : Value → List ℕ
as_blob (blob b) = b
as_blob (text t) = t
as_blob _ = []

unfoldable pub column_blob : Row → ℕ → List ℕ
unfolding as_blob
column_blob row i = as_blob (get_or row i null)

-- `mariadb_column_text`: a null pointer for NULL. No query of the services reads an integer as
-- text.
unfoldable pub as_text : Value → Option Text
as_text (text t) = some t
as_text (blob b) = some b
as_text _ = none

-- A text column as a `std::string` from the pointer, then as a `std::u16string`.
unfoldable pub column_text {ℓ} : {S : Type ℓ} → Bool → Row → ℕ → Exec S Text
unfolding as_text
column_text signed row i = elim (as_text (get_or row i null)) [
  | none ↦ undefined
  | some t ↦ pure (to_wide_string signed (c_str t))
]

pub column_text_state {ℓ} :
    {S : Type ℓ} (signed : Bool) (row : Row) (i : ℕ) (s : S) → (column_text signed row i s).1 ≡ s
unfolding column_text
column_text_state signed row i s = elim (Option-cases (as_text (get_or row i null))) [
  | inl x ↦ rw (x, column_text) refl
  | inr (a, x) ↦ rw (x, column_text) refl
]

pub column_int_state {ℓ} : {S : Type ℓ} (row : Row) (i : ℕ) (s : S) → (column_int row i s).1 ≡ s
unfolding column_int
column_int_state row i s = elim (Option-cases (as_int (get_or row i null))) [
  | inl x ↦ rw (x, column_int) refl
  | inr (a, x) ↦ rw (x, column_int) refl
]

-- A statement that must end in MARIADB_DONE; anything else is thrown.
unfoldable pub done_or_raise : Answer → Result ℕ
done_or_raise (done rowid) = ok rowid
done_or_raise (failed code) = raised (database code)
done_or_raise (rows rs) = raised (database mariadb_row)

-- A query. A failed step ends `while (mariadb_step(stmt) == MARIADB_ROW)` as no row does; a failed
-- prepare is thrown. `failed` stands for the latter.
unfoldable pub rows_or_raise : Answer → Result (List Row)
rows_or_raise (rows rs) = ok rs
rows_or_raise (done rowid) = ok []
rows_or_raise (failed code) = raised (database code)

module _ (env : Env) where
  unfoldable pub execute : Statement → Exec History ℕ
  execute s h = let h' = h ++ s ∷ [] in (done_or_raise (env.answer h'), h')

  unfoldable pub query : Statement → Exec History (List Row)
  query s h = let h' = h ++ s ∷ [] in (rows_or_raise (env.answer h'), h')
