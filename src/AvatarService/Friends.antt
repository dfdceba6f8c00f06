-- ===== src/AvatarService/Friends.antt =====
-- A table of two avatars, each a friend of the other.
use stationapiv.Prelude.{
  ℕ, ◌≡◌, ◌⊎◌, refl, sym, ◌∙◌, ap, true, false, List, [], ◌∷◌, ◌++◌, Option, none, some, Text,
  codes, any, ◌==◌, if◌then◌else◌, Bool-cases, inl, inr, arith, text_eq,
}
use stationapiv.Exec.{Result, ok, raised, fault}
use stationapiv.Storage.{
  no_website, column_text, column_int, Env, History, Answer, rows, done, Row, Value, Statement, Sql,
  query, rows_or_raise, int, text, load_avatar_by_id, load_friend_list, insert_avatar,
  load_avatar_by_name,
}
use stationapiv.Strings.{c_str, from_wide_string}
use stationapiv.Avatar.{ChatAvatar, chat_avatar}
use stationapiv.AvatarService.{
  AvatarService, by_name, by_id, select, avatar_of_row, load_stored_avatar, Key,
}
use stationapiv.AvatarService.Termination.{Selects, Knows}

abbrev row_of : ℕ → Text → Row
row_of id name = int id ∷ int 7 ∷ text name ∷ text (codes "SWG+naboo") ∷ int 0 ∷ []

abbrev stored_rows : ℕ → List Row
stored_rows id =
    if id == 1
    then row_of 1 (codes "ann") ∷ []
    else (if id == 2 then row_of 2 (codes "bob") ∷ [] else [])

abbrev friend_rows : ℕ → List Row
friend_rows id =
    if id == 1
    then (int 2 ∷ text (codes "hi") ∷ []) ∷ []
    else (if id == 2 then (int 1 ∷ text [] ∷ []) ∷ [] else [])

-- The id of a name of the table, or 0
abbrev id_named : Text → ℕ
id_named name =
    if text_eq name (codes "ann") then 1 else (if text_eq name (codes "bob") then 2 else 0)

abbrev reply_to : Sql → List Value → Answer
reply_to load_avatar_by_id (int id ∷ []) = rows (stored_rows id)
reply_to load_avatar_by_name (text name ∷ text address ∷ []) = rows (stored_rows (id_named name))
reply_to load_friend_list (int id ∷ []) = rows (friend_rows id)
reply_to insert_avatar ps = done 3
reply_to _ _ = rows []

abbrev reply : Statement → Answer
reply s = reply_to s.sql s.params

abbrev pub reply_last : History → Answer
reply_last [] = rows []
reply_last (s ∷ []) = reply s
reply_last (s ∷ (u ∷ us)) = reply_last (u ∷ us)

reply_last-append : (h : History) (s : Statement) → reply_last (h ++ s ∷ []) ≡ reply s
reply_last-append [] s = refl
reply_last-append (t ∷ []) s = refl
reply_last-append (t ∷ (u ∷ us)) s = reply_last-append (u ∷ us) s

abbrev pub friends_env : Env
friends_env = record {
  answer = reply_last;
  char_is_signed = true;
  unix_time = 0;
  put_time = λ t. [];
  website = no_website;
}

abbrev pub empty_service : AvatarService
empty_service = record { avatar_cache = []; online_avatars = []; next = 1; history = [] }

abbrev key_id : Key → ℕ
key_id (by_name name address) = id_named (c_str (from_wide_string name))
key_id (by_id id) = id

abbrev id_of_result : Result (Option ChatAvatar) → ℕ
id_of_result (ok (some a)) = a.avatar_id
id_of_result (ok none) = 0
id_of_result (raised e) = 0
id_of_result fault = 0

answered :
    (k : Key) (h : History)
    → friends_env.answer (h ++ select k ∷ []) ≡ rows (stored_rows (key_id k))
answered (by_name name address) h = reply_last-append h (select (by_name name address))
answered (by_id id) h = reply_last-append h (select (by_id id))

found :
    (k : Key) (h : History)
    → id_of_result (load_stored_avatar friends_env k h).0
      ≡ (if key_id k == 1 then 1 else (if key_id k == 2 then 2 else 0))
unfolding load_stored_avatar query rows_or_raise avatar_of_row column_text column_int chat_avatar
found k h = rw (answered k h) (elim (Bool-cases (key_id k == 1)) [
  | inl x ↦ rw x refl
  | inr x ↦ rw x (elim (Bool-cases (key_id k == 2)) [ inl y ↦ rw y refl | inr y ↦ rw y refl ])
])

missing :
    (k : Key) (h : History)
    → key_id k == 1 ≡ false
    → key_id k == 2 ≡ false
    → (load_stored_avatar friends_env k h).0 ≡ ok none
unfolding load_stored_avatar query rows_or_raise
missing k h x y = rw (answered k h, x, y) refl

-- The row has the id that was asked for, or the one of the name, and it is one of the two.
loaded :
    (k : Key) (h : History) (a : ChatAvatar)
    → (load_stored_avatar friends_env k h).0 ≡ ok (some a)
    → (a.avatar_id ≡ key_id k) × ((a.avatar_id ≡ 1) ⊎ (a.avatar_id ≡ 2))
loaded k h a e =
    let same = sym (found k h) ∙ ap id_of_result e in
    elim (Bool-cases (key_id k == 1)) [
      | inl x ↦ (ground (arith, same), inl (ground (arith, same)))
      | inr x ↦ elim (Bool-cases (key_id k == 2)) [
        | inl y ↦ (ground (arith, same), inr (ground (arith, same)))
        | inr y ↦ absurd (let bad = sym (missing k h x y) ∙ e in cc)
      ]
    ]

pub friends_env-Selects : Selects friends_env
friends_env-Selects id h a e = (loaded (by_id id) h a e).0

abbrev pub both_ids : List ℕ
both_ids = 1 ∷ 2 ∷ []

pub friends_env-Knows : Knows friends_env both_ids
unfolding any
friends_env-Knows k h a e = elim ((loaded k h a e).1) [
  | inl one ↦ rw one refl
  | inr two ↦ rw two refl
]
