-- ===== src/AvatarService/Termination.antt =====
-- `GetAvatar` and the load of contacts call each other, also around cycles of friends; every call
-- that goes deeper has put one more avatar of the table into the cache.
use stationapiv.Prelude.{
  ℕ, zero, suc, ◌≤◌, ◌<◌, ◌≡◌, refl, sym, ◌∙◌, ap, Bool, true, false, List, [], ◌∷◌, Option, none,
  some, length, Text, any, count, ◌==◌, Bool-cases, Option-cases, inl, inr, arith,
}
use mathlib.Core.Path.{subst}
use stationapiv.Exec.{Result, ok, raised, fault, Exec, pure}
use stationapiv.Exec.Fuel.{
  Run, lift, ◌>>=◌, resume, Succeeds, bind-Succeeds, lift-Succeeds, for_each-Succeeds,
}
use stationapiv.Storage.{
  Env, History, Row, column_text_state, column_int_state, column_int, column_text,
}
use stationapiv.Avatar.{Ptr, ChatAvatar}
use stationapiv.AvatarService.{
  AvatarService, Key, by_name, by_id, is_keyed, get_cached_avatar, deref, adopt, load_stored_avatar,
}
use stationapiv.AvatarService.Load.{
  or_null, with_friend, with_ignored, load_friend, load_ignored, load_friends, load_ignores,
  keep_loaded, load_missing, get_avatar,
}
use stationapiv.AvatarService.Extension.{
  Extends, KeepsKeys, get_cached_avatar-append, get_cached_avatar_new, get_cached_avatar-change_at,
}

-- What the code relies on of the database: the row that `SELECT … WHERE id = @avatar_id` hands out
-- has that id.
abbrev pub Selects : Env → Type 0
Selects env =
    (id : ℕ) (h : History) (a : ChatAvatar)
    → (load_stored_avatar env (by_id id) h).0 ≡ ok (some a)
    → a.avatar_id ≡ id

-- `known` has the id of every row of the table of avatars.
abbrev pub Knows : Env → List ℕ → Type 0
Knows env known =
    (k : Key) (h : History) (a : ChatAvatar)
    → (load_stored_avatar env k h).0 ≡ ok (some a)
    → any (λ id. id == a.avatar_id) known ≡ true

abbrev pub is_none {ℓ} : {A : Type ℓ} → Option A → Bool
is_none none = true
is_none (some a) = false

abbrev pub is_uncached : AvatarService → ℕ → Bool
is_uncached s id = is_none (get_cached_avatar (by_id id) s.avatar_cache)

pub Extends-trans : (s t u : AvatarService) → Extends s t → Extends t u → Extends s u
Extends-trans s t u h k key p e = k key p (h key p e)

is_uncached-Extends :
    (s t : AvatarService) (id : ℕ) → Extends s t → is_uncached t id ≡ true → is_uncached s id ≡ true
is_uncached-Extends s t id h e = elim (Option-cases (get_cached_avatar (by_id id) s.avatar_cache)) [
  | inl n ↦ rw n refl
  | inr (p, f) ↦ absurd (ground (arith, h (by_id id) p f))
]

module _ (known : List ℕ) where
  -- How many avatars of the table are not in the cache.
  abbrev pub uncached : AvatarService → ℕ
  uncached s = count (is_uncached s) known

module _ (s t : AvatarService) (h : Extends s t) where
  pub uncached-Extends : (ids : List ℕ) → count (is_uncached t) ids ≤ count (is_uncached s) ids
  unfolding count
  uncached-Extends [] = omega arith
  uncached-Extends (id ∷ ids) = ground (arith, uncached-Extends ids, is_uncached-Extends s t id h)

  -- The count falls where an id of the table comes into the cache.
  pub uncached_less :
      (i : ℕ) (ids : List ℕ)
      → any (λ id. id == i) ids ≡ true
      → is_uncached s i ≡ true
      → is_uncached t i ≡ false
      → count (is_uncached t) ids < count (is_uncached s) ids
  unfolding count any
  uncached_less i [] m e f = absurd (ground arith)
  uncached_less i (id ∷ ids) m e f = elim (Bool-cases (id == i)) [
    | inl here ↦
        let same : id ≡ i = ground arith in
        let out : is_uncached s id ≡ true = subst (λ x. is_uncached s x ≡ true) (sym same) e in
        let kept : is_uncached t id ≡ false = subst (λ x. is_uncached t x ≡ false) (sym same) f in
        rw (out, kept) (omega (arith, uncached-Extends ids))
    | inr there ↦
        ground (arith, uncached_less i ids (ground arith) e f, is_uncached-Extends s t id h)
  ]

count_le_length : (p : ℕ → Bool) (ids : List ℕ) → count p ids ≤ length ids
unfolding count
count_le_length p [] = omega arith
count_le_length p (id ∷ ids) = ground (arith, count_le_length p ids)

with_friend-KeepsKeys : (f : Ptr) (comment : Text) → KeepsKeys (with_friend f comment)
unfolding is_keyed
with_friend-KeepsKeys f comment (by_name name address) a = refl
with_friend-KeepsKeys f comment (by_id id) a = refl

with_ignored-KeepsKeys : (f : Ptr) → KeepsKeys (with_ignored f)
unfolding is_keyed
with_ignored-KeepsKeys f (by_name name address) a = refl
with_ignored-KeepsKeys f (by_id id) a = refl

deref_state : (p : Ptr) (s : AvatarService) → (deref p s).1 ≡ s
unfolding deref
deref_state p s = refl

-- Fuel that is more than the avatars still to come.
abbrev pub Below : List ℕ → ℕ → AvatarService → Type 0
Below known n s = uncached known s < n

module _ (env : Env) (known : List ℕ) (n : ℕ) where
  Below-Extends : (s t : AvatarService) → Extends s t → Below known n s → Below known n t
  Below-Extends s t h b = omega (arith, uncached-Extends s t h known)

  abbrev pub Loads : {A : Type 0} → Run AvatarService A → Type 0
  Loads m = Succeeds (Below known n) Extends m

  then-Loads :
      {A B : Type 0} (m : Run AvatarService A) (f : A → Run AvatarService B)
      → Loads m
      → ((a : A) → Loads (f a))
      → Loads (m >>= f)
  then-Loads m f h k = bind-Succeeds (Below known n) Extends Extends-trans Below-Extends m f h k

  lift-Loads :
      {A : Type 0} (m : Exec AvatarService A)
      → ((s : AvatarService) → Extends s (m s).1)
      → Loads (lift m)
  lift-Loads m h = lift-Succeeds (Below known n) Extends m h

  deref-Loads : (p : Ptr) → Loads (lift (deref p))
  deref-Loads p = lift-Loads (deref p) (λ s k q e. rw (deref_state p s) e)

  column_text-Loads : (row : Row) (i : ℕ) → Loads (lift (column_text env.char_is_signed row i))
  column_text-Loads row i =
      lift-Loads (column_text env.char_is_signed row i)
        (λ s k q e. rw (column_text_state env.char_is_signed row i s) e)

  column_int-Loads : (row : Row) (i : ℕ) → Loads (lift (column_int row i))
  column_int-Loads row i =
      lift-Loads (column_int row i) (λ s k q e. rw (column_int_state row i s) e)

  module _ (get : ℕ → Run AvatarService (Option Ptr)) (h : (id : ℕ) → Loads (get id))
      (p : Ptr) where
    load_friend-Loads : (row : Row) → Loads (load_friend env get p row)
    unfolding load_friend
    load_friend-Loads row = then-Loads _ _ (column_int-Loads row 0) (λ id.
        then-Loads _ _ (column_text-Loads row 1) (λ comment. then-Loads _ _ (h id) (λ friend.
          lift-Loads _ (λ s k q e.
            get_cached_avatar-change_at k p (with_friend (or_null friend) comment) s.avatar_cache
              (with_friend-KeepsKeys (or_null friend) comment)
            ∙ e))))

    load_ignored-Loads : (row : Row) → Loads (load_ignored env get p row)
    unfolding load_ignored
    load_ignored-Loads row = then-Loads _ _ (column_int-Loads row 0) (λ id.
        then-Loads _ _ (h id) (λ ignored. lift-Loads _ (λ s k q e.
          get_cached_avatar-change_at k p (with_ignored (or_null ignored)) s.avatar_cache
            (with_ignored-KeepsKeys (or_null ignored))
          ∙ e)))

    load_friends-Loads : Loads (load_friends env get p)
    unfolding load_friends
    load_friends-Loads = then-Loads _ _ (deref-Loads p) (λ a.
        then-Loads _ _ (lift-Loads _ (λ s k q e. e)) (λ found.
          for_each-Succeeds (Below known n) Extends (λ s k q e. e) Extends-trans Below-Extends
            (load_friend env get p) found load_friend-Loads))

    load_ignores-Loads : Loads (load_ignores env get p)
    unfolding load_ignores
    load_ignores-Loads = then-Loads _ _ (deref-Loads p) (λ a.
        then-Loads _ _ (lift-Loads _ (λ s k q e. e)) (λ found.
          for_each-Succeeds (Below known n) Extends (λ s k q e. e) Extends-trans Below-Extends
            (load_ignored env get p) found load_ignored-Loads))

    load_both-Loads :
        Loads (load_friends env get p >>= λ _. load_ignores env get p >>= λ _. lift (pure (some p)))
    load_both-Loads =
        then-Loads _ _ load_friends-Loads
          (λ x. then-Loads _ _ load_ignores-Loads (λ y. lift-Loads (pure (some p)) (λ s k q e. e)))

  -- Once the avatar that was loaded is in the cache, the rest ends.
  keep_loaded_ends :
      (get : ℕ → Run AvatarService (Option Ptr)) (a : ChatAvatar) (s : AvatarService)
      → ((id : ℕ) → Loads (get id))
      → Below known n (adopt a s).1
      → (r : Result (Option Ptr) × AvatarService) × (keep_loaded env get (some a) s ≡ some r)
        × Extends s r.1
  unfolding keep_loaded resume adopt
  keep_loaded_ends get a s h b =
      let rest = load_both-Loads get h s.next (adopt a s).1 b in
      (rest.0, rest.1, λ k q e. rest.2 k q (get_cached_avatar-append k q s.avatar_cache _ e))

  loaded_ends :
      (get : ℕ → Run AvatarService (Option Ptr)) (r : Result (Option ChatAvatar))
      (s : AvatarService)
      → ((id : ℕ) → Loads (get id))
      → ((a : ChatAvatar) → r ≡ ok (some a) → Below known n (adopt a s).1)
      → (q : Result (Option Ptr) × AvatarService) × (resume (some (r, s)) (keep_loaded env get)
          ≡ some q)
        × Extends s q.1
  unfolding resume keep_loaded
  loaded_ends get (ok (some a)) s h b = keep_loaded_ends get a s h (b a refl)
  loaded_ends get (ok none) s h b = ((ok none, s), refl, λ k p e. e)
  loaded_ends get (raised x) s h b = ((raised x, s), refl, λ k p e. e)
  loaded_ends get fault s h b = ((fault, s), refl, λ k p e. e)

  -- A call ends if the calls for the contacts do, in every state with the loaded avatar.
  get_avatar_step :
      (k : Key) (s : AvatarService)
      → ((id : ℕ) → Loads (get_avatar env n (by_id id)))
      → ((a : ChatAvatar)
          → get_cached_avatar k s.avatar_cache ≡ none
          → (load_stored_avatar env k s.history).0 ≡ ok (some a)
          → Below known n (adopt a s).1)
      → (q : Result (Option Ptr) × AvatarService) × (get_avatar env (suc n) k s ≡ some q)
        × Extends s q.1
  unfolding get_avatar load_missing resume adopt
  get_avatar_step k s h b = elim (Option-cases (get_cached_avatar k s.avatar_cache)) [
    | inl e ↦ rw e (
        loaded_ends (λ id. get_avatar env n (by_id id)) (load_stored_avatar env k s.history).0
          (record s { history = (load_stored_avatar env k s.history).1 }) h (λ a f. b a e f))
    | inr (p, e) ↦ rw e ((ok (some p), s), refl, λ k q f. f)
  ]

module _ (env : Env) (known : List ℕ) (selects : Selects env) (knows : Knows env known) where
  -- The avatar that a call by id has loaded was not in the cache, and is now.
  adopted_Below :
      (n : ℕ) (id : ℕ) (s : AvatarService) (a : ChatAvatar)
      → Below known (suc n) s
      → get_cached_avatar (by_id id) s.avatar_cache ≡ none
      → (load_stored_avatar env (by_id id) s.history).0 ≡ ok (some a)
      → Below known n (adopt a s).1
  unfolding adopt is_keyed
  adopted_Below n id s a b e f =
      let same : a.avatar_id ≡ id = selects id s.history a f in
      let grown : Extends s (adopt a s).1 =
        λ k p h. get_cached_avatar-append k p s.avatar_cache _ h in
      let before : is_uncached s a.avatar_id ≡ true = rw (same, e) refl in
      let after : is_uncached (adopt a s).1 a.avatar_id ≡ false = ap is_none (
        get_cached_avatar_new (by_id a.avatar_id) (record { at = s.next; avatar = a })
          s.avatar_cache (rw same e) (ground arith)) in
      omega (
        arith,
        uncached_less s (adopt a s).1 grown a.avatar_id known (knows (by_id id) s.history a f)
            before after,
      )

  get_avatar_ends : (n id : ℕ) → Succeeds (Below known n) Extends (get_avatar env n (by_id id))
  get_avatar_ends zero id s b = absurd (omega arith)
  get_avatar_ends (suc n) id s b =
      get_avatar_step env known n (by_id id) s (get_avatar_ends n)
        (λ a e f. adopted_Below n id s a b e f)

  enough : (s : AvatarService) → Below known (suc (length known)) s
  enough s = omega (arith, count_le_length (is_uncached s) known)

  -- `GetAvatar` returns or throws.
  pub get_avatar_total :
      (k : Key) (s : AvatarService)
      → (r : Result (Option Ptr) × AvatarService) × (get_avatar env (suc (suc (length known))) k s
          ≡ some r)
        × Extends s r.1
  get_avatar_total k s =
      get_avatar_step env known (suc (length known)) k s (get_avatar_ends (suc (length known)))
        (λ a e f. enough (adopt a s).1)
