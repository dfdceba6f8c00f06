-- ===== src/AvatarService/Fuel.antt =====
-- More fuel changes no outcome of `GetAvatar`.
use stationapiv.Prelude.{ℕ, zero, suc, ◌+◌, ◌≡◌, List, length, Option, none, some, arith}
use mathlib.Core.Path.{subst}
use stationapiv.Exec.{Result, gets}
use stationapiv.Exec.Fuel.{Run, lift, for_each, IsRefined, bind-IsRefined, for_each-IsRefined}
use stationapiv.Storage.{Env}
use stationapiv.Avatar.{Ptr, ChatAvatar}
use stationapiv.AvatarService.{
  AvatarService, Key, by_id, get_cached_avatar, load_stored_avatar, deref, adopt, on_history,
}
use stationapiv.AvatarService.Load.{
  load_friend, load_ignored, load_friends, load_ignores, keep_loaded, load_missing, get_avatar,
}
use stationapiv.AvatarService.Termination.{Selects, Knows, get_avatar_total}

module _ (env : Env) (get get' : ℕ → Run AvatarService (Option Ptr))
    (h : (id : ℕ) → IsRefined (get id) (get' id)) where
  load_friends-IsRefined : (p : Ptr) → IsRefined (load_friends env get p) (load_friends env get' p)
  unfolding load_friends load_friend
  load_friends-IsRefined p =
      bind-IsRefined (lift (deref p)) (lift (deref p)) _ _ (λ s r e. e)
        (λ a.
          bind-IsRefined _ _ (for_each (load_friend env get p)) (for_each (load_friend env get' p))
            (λ s r e. e)
            (λ found.
              for_each-IsRefined (load_friend env get p) (load_friend env get' p) found (λ row.
                bind-IsRefined _ _ _ _ (λ s r e. e)
                  (λ id.
                    bind-IsRefined _ _ _ _ (λ s r e. e)
                      (λ comment. bind-IsRefined (get id) (get' id) _ _ (h id) (λ f s r e. e))))))

  load_ignores-IsRefined : (p : Ptr) → IsRefined (load_ignores env get p) (load_ignores env get' p)
  unfolding load_ignores load_ignored
  load_ignores-IsRefined p =
      bind-IsRefined (lift (deref p)) (lift (deref p)) _ _ (λ s r e. e)
        (λ a.
          bind-IsRefined _ _ (for_each (load_ignored env get p))
            (for_each (load_ignored env get' p)) (λ s r e. e)
            (λ found.
              for_each-IsRefined (load_ignored env get p) (load_ignored env get' p) found (λ row.
                bind-IsRefined _ _ _ _ (λ s r e. e)
                  (λ id. bind-IsRefined (get id) (get' id) _ _ (h id) (λ f s r e. e)))))

  keep_loaded-IsRefined :
      (o : Option ChatAvatar) → IsRefined (keep_loaded env get o) (keep_loaded env get' o)
  unfolding keep_loaded
  keep_loaded-IsRefined none s r e = e
  keep_loaded-IsRefined (some a) s r e =
      bind-IsRefined (lift (adopt a)) (lift (adopt a)) _ _ (λ s r e. e)
        (λ p.
          bind-IsRefined (load_friends env get p) (load_friends env get' p) _ _
            (load_friends-IsRefined p)
            (λ x.
              bind-IsRefined (load_ignores env get p) (load_ignores env get' p) _ _
                (load_ignores-IsRefined p) (λ y s r e. e)))
        s r e

  load_missing-IsRefined :
      (k : Key) (o : Option Ptr) → IsRefined (load_missing env get k o) (load_missing env get' k o)
  unfolding load_missing
  load_missing-IsRefined k (some p) s r e = e
  load_missing-IsRefined k none s r e =
      bind-IsRefined (lift (on_history env (load_stored_avatar env k))) _ (keep_loaded env get)
        (keep_loaded env get') (λ s r e. e) keep_loaded-IsRefined s r e

module _ (env : Env) where
  get_avatar_more : (n : ℕ) (k : Key) → IsRefined (get_avatar env n k) (get_avatar env (suc n) k)
  unfolding get_avatar
  get_avatar_more zero k s r e = cc
  get_avatar_more (suc n) k s r e =
      bind-IsRefined (lift (gets (λ s. get_cached_avatar k s.avatar_cache)))
        (lift (gets (λ s. get_cached_avatar k s.avatar_cache)))
        (load_missing env (λ id. get_avatar env n (by_id id)) k)
        (load_missing env (λ id. get_avatar env (suc n) (by_id id)) k) (λ s r e. e)
        (load_missing-IsRefined env (λ id. get_avatar env n (by_id id))
          (λ id. get_avatar env (suc n) (by_id id)) (λ id. get_avatar_more n (by_id id)) k)
        s r e

  get_avatar_extra : (m n : ℕ) (k : Key) → IsRefined (get_avatar env n k) (get_avatar env (m + n) k)
  get_avatar_extra zero n k s r e = subst (λ m. get_avatar env m k s ≡ some r) (omega arith) e
  get_avatar_extra (suc m) n k s r e =
      subst (λ m. get_avatar env m k s ≡ some r) (omega arith)
        (get_avatar_more (m + n) k s r (get_avatar_extra m n k s r e))

  module _ (known : List ℕ) (selects : Selects env) (knows : Knows env known) where
    -- Where a SELECT of an avatar by its id hands out only that id, and every id comes from a
    -- list of known ones, `GetAvatar` comes to an end, by name and by id, around cycles of
    -- friends too: calls as deep as that list is long, and two more, are enough fuel, and any
    -- more fuel leads to the same outcome.
    pub get_avatar-terminates :
        (k : Key) (s : AvatarService)
        → (r : Result (Option Ptr) × AvatarService) × ((more : ℕ)
            → get_avatar env (more + suc (suc (length known))) k s ≡ some r)
    get_avatar-terminates k s =
        let end = get_avatar_total env known selects knows k s in
        (end.0, λ more. get_avatar_extra more (suc (suc (length known))) k s end.0 end.1)
