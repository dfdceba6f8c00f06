-- ===== src/AvatarService/Load.antt =====
-- `GetAvatar` of src/stationchat/ChatAvatarService.cpp. It loads the contacts of the avatar that it
-- loads, each by `GetAvatar` again; the fuel is the depth of these calls.
use stationapiv.Prelude.{ℕ, zero, suc, [], ◌∷◌, ◌++◌, Option, none, some, Text}
use stationapiv.Exec.{pure, gets}
use stationapiv.Exec.Fuel.{Run, lift, exhausted, ◌>>=◌, ◌>>◌, for_each}
use stationapiv.Storage.{
  Env, Row, int, statement, query, column_int, column_text, load_friend_list, load_ignore_list,
}
use stationapiv.Avatar.{Ptr, ChatAvatar}
use stationapiv.AvatarService.{
  AvatarService, Key, by_id, get_cached_avatar, deref, change_avatar, adopt, on_history,
  load_stored_avatar,
}

-- A contact whose id has no avatar is a null pointer.
abbrev pub or_null : Option Ptr → Ptr
or_null none = 0
or_null (some p) = p

abbrev pub with_friend : Ptr → Text → ChatAvatar → ChatAvatar
with_friend f comment a = record a {
  friend_list = a.friend_list ++ record { frnd = f; comment = comment } ∷ [];
}

abbrev pub with_ignored : Ptr → ChatAvatar → ChatAvatar
with_ignored f a = record a { ignore_list = a.ignore_list ++ record { ignored = f } ∷ [] }

module _ (env : Env) where
  module _ (get : ℕ → Run AvatarService (Option Ptr)) (p : Ptr) where
    unfoldable pub load_friend : Row → Run AvatarService (Unit {0})
    unfolding column_int
    load_friend row = do
      id ← lift (column_int row 0)
      comment ← lift (column_text env.char_is_signed row 1)
      friend ← get id
      lift (change_avatar p (with_friend (or_null friend) comment))

    unfoldable pub load_ignored : Row → Run AvatarService (Unit {0})
    unfolding column_int
    load_ignored row = do
      id ← lift (column_int row 0)
      ignored ← get id
      lift (change_avatar p (with_ignored (or_null ignored)))

    unfoldable pub load_friends : Run AvatarService (Unit {0})
    unfolding load_friend deref
    load_friends = do
      a ← lift (deref p)
      found ← lift (on_history env (query env (statement load_friend_list (int a.avatar_id ∷ []))))
      for_each load_friend found

    unfoldable pub load_ignores : Run AvatarService (Unit {0})
    unfolding load_ignored deref
    load_ignores = do
      a ← lift (deref p)
      found ← lift (on_history env (query env (statement load_ignore_list (int a.avatar_id ∷ []))))
      for_each load_ignored found

  unfoldable pub keep_loaded :
      (ℕ → Run AvatarService (Option Ptr)) → Option ChatAvatar → Run AvatarService (Option Ptr)
  unfolding load_friends load_ignores adopt
  keep_loaded get none = lift (pure none)
  keep_loaded get (some a) = do
    p ← lift (adopt a)
    load_friends get p
    load_ignores get p
    lift (pure (some p))

  unfoldable pub load_missing :
      (ℕ → Run AvatarService (Option Ptr)) → Key → Option Ptr → Run AvatarService (Option Ptr)
  unfolding load_stored_avatar keep_loaded
  load_missing get k (some p) = lift (pure (some p))
  load_missing get k none = do
    loaded ← lift (on_history env (load_stored_avatar env k))
    keep_loaded get loaded

  unfoldable pub get_avatar : ℕ → Key → Run AvatarService (Option Ptr)
  unfolding get_cached_avatar load_missing
  get_avatar zero k = exhausted
  get_avatar (suc n) k = do
    cached ← lift (gets (λ s. get_cached_avatar k s.avatar_cache))
    load_missing (λ id. get_avatar n (by_id id)) k cached
