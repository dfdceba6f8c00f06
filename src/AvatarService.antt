-- ===== src/AvatarService.antt =====
-- src/stationchat/ChatAvatarService.cpp: the avatars that the service keeps in memory, and their
-- rows in the database.
pub mod Load
pub mod Extension
pub mod Termination
pub mod Fuel
pub mod Again
pub mod Friends
mod Examples
use stationapiv.Prelude.{
  ℕ, suc, ◌+◌, ◌%◌, ◌^◌, Bool, true, false, ◌&&◌, List, [], ◌∷◌, ◌++◌, map, Option, none, some,
  Text, text_eq, any, count, reject, get_or, leb, ◌==◌, if◌then◌else◌,
}
use stationapiv.Exec.{Result, ok, fault, Exec, pure, undefined, gets, modify, zoom, ◌>>=◌, ◌>>◌}
use stationapiv.Storage.{
  Env, History, Sql, Value, Row, Statement, int, statement, execute, query, wide, column_int,
  column_text, load_avatar_by_name, load_avatar_by_id, insert_avatar, update_avatar, delete_avatar,
}
use stationapiv.Avatar.{Ptr, ChatAvatar, chat_avatar}
use stationapiv.Presence.{Presence, login_avatar, logout_avatar}

-- A `std::unique_ptr<ChatAvatar>` of the cache: the address of the avatar, and the avatar.
pub record Cell : Type 0 where
  pub at : Ptr
  pub avatar : ChatAvatar

-- Every avatar that is alive has its cell in the cache. Addresses are not used twice; `next` is the
-- next one, and 0 is the null pointer.
pub record AvatarService : Type 0 where
  pub avatar_cache : List Cell
  pub online_avatars : List Ptr
  pub next : Ptr
  pub history : History

-- The avatar at an address, none where it is null or freed.
unfoldable pub avatar_at : List Cell → Ptr → Option ChatAvatar
avatar_at [] p = none
avatar_at (c ∷ cs) p = let rest = avatar_at cs p in if c.at == p then some c.avatar else rest

unfoldable pub change_at : Ptr → (ChatAvatar → ChatAvatar) → List Cell → List Cell
change_at p f = map (λ (c : Cell). if c.at == p then record c { avatar = f c.avatar } else c)

-- `avatar->…`
unfoldable pub deref : Ptr → Exec AvatarService ChatAvatar
deref p s = (elim (avatar_at s.avatar_cache p) [ none ↦ fault | some a ↦ ok a ], s)

abbrev pub change_avatar : Ptr → (ChatAvatar → ChatAvatar) → Exec AvatarService (Unit {0})
change_avatar p f = modify (λ s. record s { avatar_cache = change_at p f s.avatar_cache })

-- The two overloads of `GetAvatar`, `GetCachedAvatar` and `LoadStoredAvatar`.
pub data Key : Type 0 where
  by_name : Text → Text → Key
  by_id : ℕ → Key

unfoldable pub is_keyed : Key → ChatAvatar → Bool
is_keyed (by_name name address) a = text_eq a.name name && text_eq a.address address
is_keyed (by_id id) a = a.avatar_id == id

abbrev pub select : Key → Statement
select (by_name name address) = statement load_avatar_by_name (wide name ∷ wide address ∷ [])
select (by_id id) = statement load_avatar_by_id (int id ∷ [])

unfoldable pub get_cached_avatar : Key → List Cell → Option Ptr
unfolding is_keyed
get_cached_avatar k [] = none
get_cached_avatar k (c ∷ cs) =
    let rest = get_cached_avatar k cs in if is_keyed k c.avatar then some c.at else rest

-- The service as `Presence` sees it.
abbrev pub presence : AvatarService → Presence
presence s = record { heap = avatar_at s.avatar_cache; online_avatars = s.online_avatars }

abbrev pub put_presence : AvatarService → Presence → AvatarService
put_presence s x = record s {
  avatar_cache =
      map (λ (c : Cell). record c { avatar = elim (x.heap c.at) [ none ↦ c.avatar | some a ↦ a ] })
        s.avatar_cache;
  online_avatars = x.online_avatars;
}

abbrev pub login : Ptr → Exec AvatarService (Unit {0})
login p = zoom presence put_presence (login_avatar p)

abbrev pub logout : Ptr → Exec AvatarService (Unit {0})
logout p = zoom presence put_presence (logout_avatar p)

-- `avatarCache_.emplace_back(std::move(…))`
unfoldable pub adopt : ChatAvatar → Exec AvatarService Ptr
adopt a s = (
  ok s.next,
  record s {
    avatar_cache = s.avatar_cache ++ record { at = s.next; avatar = a } ∷ [];
    next = suc s.next;
  },
)

-- `erase` takes one cell away. A second one with the id would stay behind as a null pointer, which
-- the next search of the cache dereferences; this counts as undefined here already.
unfoldable pub remove_cached_avatar : ℕ → Exec AvatarService (Unit {0})
unfolding is_keyed
remove_cached_avatar id s =
    if leb (count (λ (c : Cell). is_keyed (by_id id) c.avatar) s.avatar_cache) 1
    then (
      ok tt,
      record s {
        avatar_cache = reject (λ (c : Cell). is_keyed (by_id id) c.avatar) s.avatar_cache;
      },
    )
    else (fault, s)

-- The avatar of a row of `SELECT id, user_id, name, address, attributes`
unfoldable pub avatar_of_row {ℓ} : {S : Type ℓ} → Bool → Row → Exec S ChatAvatar
unfolding column_int
avatar_of_row signed row = do
  avatar_id ← column_int row 0
  user_id ← column_int row 1
  name ← column_text signed row 2
  address ← column_text signed row 3
  attributes ← column_int row 4
  pure (record (chat_avatar name address user_id attributes []) { avatar_id = avatar_id })

module _ (env : Env) where
  abbrev pub on_history : {A : Type 0} → Exec History A → Exec AvatarService A
  on_history = zoom (λ s. s.history) (λ s h. record s { history = h })

  unfoldable pub load_stored_avatar : Key → Exec History (Option ChatAvatar)
  unfolding avatar_of_row
  load_stored_avatar k = do
    found ← query env (select k)
    elim found [
      | [] ↦ pure none
      | row ∷ _ ↦ do a ← avatar_of_row env.char_is_signed row; pure (some a)
    ]

  -- `InsertAvatar` of an avatar not cached yet
  unfoldable pub insert_row : ChatAvatar → Exec AvatarService ChatAvatar
  insert_row a = do
    rowid ← on_history (
        execute env (
          statement insert_avatar
            (int a.user_id ∷ wide a.name ∷ wide a.address ∷ int a.attributes ∷ [])))
    pure (record a { avatar_id = rowid % 2 ^ 32 })

  unfoldable pub create_avatar : Text → Text → ℕ → ℕ → Text → Exec AvatarService Ptr
  unfolding insert_row adopt chat_avatar
  create_avatar name address user_id login_attributes login_location = do
    a ← insert_row (chat_avatar name address user_id login_attributes login_location)
    adopt a

  -- `PersistAvatar`
  unfoldable pub update_row : Ptr → Exec AvatarService (Unit {0})
  unfolding deref
  update_row p = do
    a ← deref p
    on_history (
        execute env (
          statement update_avatar (
            int a.user_id
            ∷ wide a.name
            ∷ wide a.address
            ∷ int a.attributes
            ∷ int a.avatar_id
            ∷ [])))
    pure tt

  unfoldable pub delete_row : Ptr → Exec AvatarService (Unit {0})
  unfolding deref
  delete_row p = do
    a ← deref p
    on_history (execute env (statement delete_avatar (int a.avatar_id ∷ [])))
    pure tt

  unfoldable pub destroy_avatar : Ptr → Exec AvatarService (Unit {0})
  unfolding delete_row deref remove_cached_avatar
  destroy_avatar p = do delete_row p; logout p; a ← deref p; remove_cached_avatar a.avatar_id
