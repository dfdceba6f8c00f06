-- ===== src/AvatarService/Again.antt =====
-- What the cache of src/stationchat/ChatAvatarService.cpp answers after a load, a creation and a
-- destruction.
use stationapiv.Prelude.{
  ℕ, suc, ◌%◌, ◌^◌, ◌≡◌, refl, sym, ◌∙◌, ap, true, [], ◌∷◌, ◌++◌, Option, none, some, Text,
  text_eq_refl,
}
use stationapiv.Exec.{Result, ok, raised, fault, pure, continue}
use stationapiv.Exec.Fuel.{resume}
use stationapiv.Storage.{Env, execute, statement, done_or_raise, insert_avatar, wide, int}
use stationapiv.Avatar.{Ptr, ChatAvatar, chat_avatar}
use stationapiv.AvatarService.{
  AvatarService, Key, by_name, is_keyed, get_cached_avatar, adopt, insert_row, create_avatar,
}
use stationapiv.AvatarService.Load.{load_missing, get_avatar}
use stationapiv.AvatarService.Extension.{get_cached_avatar_new}

-- Every load of an avatar that is in the cache leaves the service as it is.
pub get_avatar_cached :
    (env : Env) (n : ℕ) (k : Key) (p : Ptr) (s : AvatarService)
    → get_cached_avatar k s.avatar_cache ≡ some p
    → get_avatar env (suc n) k s ≡ some (ok (some p), s)
unfolding get_avatar load_missing resume
get_avatar_cached env n k p s e = rw e refl

abbrev result_or_none : Result Ptr × AvatarService → Option Ptr
result_or_none (ok p, s) = some p
result_or_none (raised e, s) = none
result_or_none (fault, s) = none

created_cached :
    (a : ChatAvatar) (o : Result ℕ) (k : Key) (p : Ptr) (s t : AvatarService)
    → ((id : ℕ) → is_keyed k (record a { avatar_id = id }) ≡ true)
    → get_cached_avatar k s.avatar_cache ≡ none
    → continue
        (continue o (λ rowid. pure (record a { avatar_id = rowid % 2 ^ 32 })) s).0
        adopt
        (continue o (λ rowid. pure (record a { avatar_id = rowid % 2 ^ 32 })) s).1
      ≡ (ok p, t)
    → get_cached_avatar k t.avatar_cache ≡ some p
unfolding adopt
created_cached a (ok rowid) k p s t h e c =
    ap (λ (u : AvatarService). get_cached_avatar k u.avatar_cache) (sym (ap (λ u. u.1) c))
    ∙ get_cached_avatar_new k
        (record { at = s.next; avatar = record a { avatar_id = rowid % 2 ^ 32 } }) s.avatar_cache e
        (h (rowid % 2 ^ 32))
    ∙ ap result_or_none c
created_cached a (raised x) k p s t h e c =
    absurd (let bad : none ≡ some p = ap result_or_none c in cc)
created_cached a fault k p s t h e c = absurd (let bad : none ≡ some p = ap result_or_none c in cc)

module _ (env : Env) where
  -- An avatar that has just been created is the one that a look up of its name finds, if none of
  -- this name was in the cache before, and the database is not asked again.
  pub get_avatar-create_avatar :
      (name address location : Text) (user_id attributes n : ℕ) (p : Ptr) (s t : AvatarService)
      → get_cached_avatar (by_name name address) s.avatar_cache ≡ none
      → create_avatar env name address user_id attributes location s ≡ (ok p, t)
      → get_avatar env (suc n) (by_name name address) t ≡ some (ok (some p), t)
  unfolding create_avatar insert_row is_keyed chat_avatar execute
  get_avatar-create_avatar name address location user_id attributes n p s t e c =
      let a = chat_avatar name address user_id attributes location in
      let row = int a.user_id ∷ wide a.name ∷ wide a.address ∷ int a.attributes ∷ [] in
      let h = s.history ++ statement insert_avatar row ∷ [] in
      get_avatar_cached env n (by_name name address) p t (
        created_cached a (done_or_raise (env.answer h)) (by_name name address) p
          (record s { history = h }) t (λ id. rw (text_eq_refl name, text_eq_refl address) refl) e
          c)
