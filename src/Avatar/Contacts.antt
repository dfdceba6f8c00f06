-- ===== src/Avatar/Contacts.antt =====
-- The methods of src/stationchat/ChatAvatar.cpp, with the statements of
-- src/stationchat/ChatAvatarService.cpp that they execute. The avatars that contacts point to are
-- alive, and keep their ids.
pub mod Calls
pub mod Validity
pub mod Standing
mod Examples
use stationapiv.Prelude.{
  ℕ, Bool, not, List, [], ◌∷◌, ◌++◌, Text, any, erase_removed, ◌==◌, if◌then◌else◌,
}
use stationapiv.Exec.{Exec, pure, gets, modify, when, zoom, ◌>>=◌, ◌>>◌}
use stationapiv.Storage.{
  Env, History, Sql, Value, int, statement, execute, wide, persist_friend, persist_ignore,
  remove_friend, remove_ignore, update_friend_comment,
}
use stationapiv.Avatar.{Ptr, FriendContact, IgnoreContact, ChatAvatar}

-- The avatar that the method is called on, and the statements executed so far.
pub record AvatarState : Type 0 where
  pub avatar : ChatAvatar
  pub history : History

abbrev pub get_avatar : Exec AvatarState ChatAvatar
get_avatar = gets (λ s. s.avatar)

abbrev pub put_avatar : ChatAvatar → Exec AvatarState (Unit {0})
put_avatar a = modify (λ s. record s { avatar = a })

module _ (id_of : Ptr → ℕ) where
  abbrev pub is_frnd : ℕ → FriendContact → Bool
  is_frnd id c = id_of c.frnd == id

  abbrev pub is_ignoree : ℕ → IgnoreContact → Bool
  is_ignoree id c = id_of c.ignored == id

  -- `IsFriend` and `IsIgnored`, of the id of the avatar
  unfoldable pub is_friend : ChatAvatar → ℕ → Bool
  is_friend a id = any (is_frnd id) a.friend_list

  unfoldable pub is_ignored : ChatAvatar → ℕ → Bool
  is_ignored a id = any (is_ignoree id) a.ignore_list

  -- `find_iter->comment = comment` for the first contact of the id
  unfoldable pub set_comment : ℕ → Text → List FriendContact → List FriendContact
  set_comment id comment [] = []
  set_comment id comment (c ∷ cs) =
      let rest = c ∷ set_comment id comment cs in
      if is_frnd id c then record c { comment = comment } ∷ cs else rest

  module _ (env : Env) where
    abbrev pub run_statement : Sql → List Value → Exec AvatarState (Unit {0})
    run_statement sql ps =
        zoom (λ s. s.history) (λ s h. record s { history = h }) (execute env (statement sql ps))
        >> pure tt

    unfoldable pub drop_friend : Ptr → Exec AvatarState (Unit {0})
    drop_friend avatar = do
      self ← get_avatar
      when (is_friend self (id_of avatar)) do
        put_avatar
            (record self { friend_list = erase_removed (is_frnd (id_of avatar)) self.friend_list })
        run_statement remove_friend (int self.avatar_id ∷ int (id_of avatar) ∷ [])

    unfoldable pub drop_ignore : Ptr → Exec AvatarState (Unit {0})
    drop_ignore avatar = do
      self ← get_avatar
      when (is_ignored self (id_of avatar)) do
        put_avatar (record self {
          ignore_list = erase_removed (is_ignoree (id_of avatar)) self.ignore_list;
        })
        run_statement remove_ignore (int self.avatar_id ∷ int (id_of avatar) ∷ [])

    unfoldable pub make_friend : Ptr → Text → Exec AvatarState (Unit {0})
    unfolding drop_ignore
    make_friend avatar comment = do
      self ← get_avatar
      when (not (is_friend self (id_of avatar))) do
        when (is_ignored self (id_of avatar)) (drop_ignore avatar)
        self' ← get_avatar
        put_avatar (record self' {
          friend_list = self'.friend_list ++ record { frnd = avatar; comment = comment } ∷ [];
        })
        run_statement persist_friend (int self'.avatar_id ∷ int (id_of avatar) ∷ wide comment ∷ [])

    unfoldable pub change_comment : Ptr → Text → Exec AvatarState (Unit {0})
    change_comment avatar comment = do
      self ← get_avatar
      when (is_friend self (id_of avatar)) do
        put_avatar
            (record self { friend_list = set_comment (id_of avatar) comment self.friend_list })
        run_statement update_friend_comment
            (wide comment ∷ int self.avatar_id ∷ int (id_of avatar) ∷ [])

    unfoldable pub make_ignored : Ptr → Exec AvatarState (Unit {0})
    unfolding drop_friend
    make_ignored avatar = do
      self ← get_avatar
      when (not (is_ignored self (id_of avatar))) do
        when (is_friend self (id_of avatar)) (drop_friend avatar)
        self' ← get_avatar
        put_avatar
            (record self' { ignore_list = self'.ignore_list ++ record { ignored = avatar } ∷ [] })
        run_statement persist_ignore (int self'.avatar_id ∷ int (id_of avatar) ∷ [])
