-- ===== src/Website/Mirror.antt =====
-- The statements of src/stationchat/WebsiteIntegrationService.cpp that mirror logins and mail to the
-- tables of the website. With a separate database its statements stand among those of the chat.
use stationapiv.Prelude.{
  ℕ, ◌%◌, ◌^◌, true, false, not, ◌&&◌, Bool, List, [], ◌∷◌, ◌++◌, ◌==◌, if◌then◌else◌,
}
use stationapiv.Exec.{Exec, pure, when, ◌>>◌}
use stationapiv.Strings.{c_str}
use stationapiv.Storage.{
  Env, History, ColumnInfo, Value, null, int, text, wide, statement, execute, website_user_link,
  website_status, website_mail,
}
use stationapiv.Avatar.{ChatAvatar}
use stationapiv.Messages.{PersistentMessage}

module _ (env : Env) where
  abbrev pub current_unix_time : ℕ
  current_unix_time = env.unix_time % 2 ^ 32

  -- `BindTimestampParameter`; a parameter that is not bound is NULL.
  unfoldable pub timestamp : ColumnInfo → ℕ → Value
  timestamp info t =
      if not info.exists
      then null
      else if not info.is_date_time
      then int t
      else if t == 0
      then null
      else text (c_str (env.put_time t))

  -- The parameter of a column that the SQL text has where the table has it
  abbrev pub optional : ColumnInfo → List Value
  optional info = if info.exists then timestamp info current_unix_time ∷ [] else []

  abbrev pub user_link_values : ChatAvatar → List Value
  user_link_values a =
      int a.user_id
      ∷ int a.avatar_id
      ∷ wide a.name
      ∷ (optional env.website.user_link_created_at ++ optional env.website.user_link_updated_at)

  unfoldable pub ensure_user_link : ChatAvatar → Exec History (Unit {0})
  unfolding timestamp
  ensure_user_link a =
      when (env.website.enabled && not (a.user_id == 0))
        (execute env (statement website_user_link (user_link_values a)) >> pure tt)

  abbrev pub status_values : ChatAvatar → Bool → List Value
  status_values a is_online =
      int a.avatar_id
      ∷ int a.user_id
      ∷ wide a.name
      ∷ int (if is_online then 1 else 0)
      ∷ timestamp env.website.status_login_at (if is_online then current_unix_time else 0)
      ∷ timestamp env.website.status_logout_at (if is_online then 0 else current_unix_time)
      ∷ (optional env.website.status_updated_at ++ optional env.website.status_created_at)

  unfoldable pub update_online_status : ChatAvatar → Bool → Exec History (Unit {0})
  unfolding timestamp
  update_online_status a is_online =
      when env.website.enabled
        (execute env (statement website_status (status_values a is_online)) >> pure tt)

  unfoldable pub record_avatar_login : ChatAvatar → Exec History (Unit {0})
  unfolding ensure_user_link update_online_status
  record_avatar_login a =
      when env.website.enabled (ensure_user_link a >> update_online_status a true)

  unfoldable pub record_avatar_logout : ChatAvatar → Exec History (Unit {0})
  unfolding update_online_status
  record_avatar_logout a = when env.website.enabled (update_online_status a false)

  abbrev pub mail_values : ChatAvatar → PersistentMessage → List Value
  mail_values dest m =
      int dest.avatar_id
      ∷ int dest.user_id
      ∷ wide dest.name
      ∷ int m.header.message_id
      ∷ wide m.header.from_name
      ∷ wide m.header.from_address
      ∷ wide m.header.subject
      ∷ wide m.message
      ∷ wide m.oob
      ∷ int m.header.sent_time
      ∷ (optional env.website.mail_created_at
          ++ optional env.website.mail_updated_at
          ++ int m.header.status ∷ [])

  unfoldable pub record_persistent_message :
      ChatAvatar → PersistentMessage → Exec History (Unit {0})
  unfolding ensure_user_link timestamp
  record_persistent_message dest m = when env.website.enabled (
      ensure_user_link dest
      >> (execute env (statement website_mail (mail_values dest m)) >> pure tt))
