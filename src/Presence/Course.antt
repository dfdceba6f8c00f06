-- ===== src/Presence/Course.antt =====
-- Logins and logouts in any order keep the list of the avatars online and their flags together.
use stationapiv.Prelude.{
  ℕ, ◌≤◌, ◌≡◌, ◌≢◌, refl, ap, ◌∙◌, ◌++◌, Bool, true, false, ◌||◌, List, [], ◌∷◌, Option, none, some,
  any, any-append, count, count-append, count_zero, count-reject, reject, erase_removed,
  erase_removed-eq-reject, All, All-append, ◌==◌, Bool-cases, inl, inr, arith,
}
use mathlib.Core.Path.{subst}
use stationapiv.Exec.{ok}
use stationapiv.Avatar.{Ptr, ChatAvatar}
use stationapiv.Presence.{
  Heap, Presence, write_at, load, store_at, has_id, all_alive, erase_online, logout_avatar,
}
use stationapiv.Presence.Synced.{
  is_flagged, Flagged, IsSynced, HasDistinctIds, write_at_other, has_id-some, any-write_at,
  count-write_at, reject-write_at, all_alive-write_at, read_changed, mark_online, online_here,
  all_alive-Flagged, logged_in,
}

has_id-eq :
    (heap : Heap) (p : Ptr) (a : ChatAvatar) (id : ℕ)
    → heap p ≡ some a
    → has_id heap id p ≡ (a.avatar_id == id)
unfolding has_id
has_id-eq heap p a id h = rw (h, has_id) refl

module _ (s : Presence) (p : Ptr) (a : ChatAvatar) (i : IsSynced s) (h : s.heap p ≡ some a) where
  present :
      (q : Ptr) (b : ChatAvatar)
      → write_at p (record a { is_online = true }) s.heap q ≡ some b
      → b.is_online ≡ true
      → any (has_id s.heap a.avatar_id) s.online_avatars ≡ true
      → any (has_id s.heap b.avatar_id) s.online_avatars ≡ true
  present q b there on e = elim (read_changed s.heap p a true h q b there) [
    | inl (here, same) ↦
        ap (λ (x : ChatAvatar). any (has_id s.heap x.avatar_id) s.online_avatars) same ∙ e
    | inr (other, old) ↦ i.listed q b old on
  ]

  once :
      (id : ℕ)
      → any (has_id s.heap a.avatar_id) s.online_avatars ≡ false
      → count (has_id s.heap id) (s.online_avatars ++ p ∷ []) ≤ 1
  unfolding count
  once id e =
      rw (count-append (has_id s.heap id) s.online_avatars (p ∷ []), has_id-eq s.heap p a id h)
        (elim (Bool-cases (a.avatar_id == id)) [
          | inl same ↦
              let none_yet : count (has_id s.heap id) s.online_avatars ≡ 0 =
                subst (λ x. count (has_id s.heap x) s.online_avatars ≡ 0) (ground arith)
                  (count_zero (has_id s.heap a.avatar_id) s.online_avatars e) in
              ground (arith, none_yet)
          | inr other ↦ ground (arith, i.unique id)
        ])

  joined :
      (q : Ptr) (b : ChatAvatar)
      → write_at p (record a { is_online = true }) s.heap q ≡ some b
      → b.is_online ≡ true
      → (any (has_id s.heap b.avatar_id) s.online_avatars
          || any (has_id s.heap b.avatar_id) (p ∷ []))
        ≡ true
  unfolding any
  joined q b there on = elim (read_changed s.heap p a true h q b there) [
    | inl (here, same) ↦
        ap
          (λ (x : ChatAvatar).
            any (has_id s.heap x.avatar_id) s.online_avatars
            || (has_id s.heap x.avatar_id p || false))
          same
        ∙ ground (arith, has_id-some s.heap p a h)
    | inr (other, old) ↦ ground (arith, i.listed q b old on)
  ]

  pub logged_in-IsSynced : IsSynced (logged_in p a s)
  logged_in-IsSynced = elim (Bool-cases (any (has_id s.heap a.avatar_id) s.online_avatars)) [
    | inl e ↦ rw e (record {
      flagged = mark_online s.heap p a s.online_avatars i.flagged;
      unique = λ id. rw (count-write_at s.heap p a true h id s.online_avatars) (i.unique id);
      listed = λ q b there on.
          rw (any-write_at s.heap p a true h b.avatar_id s.online_avatars) (present q b there on e);
    })
    | inr e ↦ rw e (record {
      flagged =
          All-append (Flagged (write_at p (record a { is_online = true }) s.heap)) s.online_avatars
            (p ∷ []) (mark_online s.heap p a s.online_avatars i.flagged)
            (online_here s.heap p a, tt);
      unique =
          λ id. rw (count-write_at s.heap p a true h id (s.online_avatars ++ p ∷ [])) (once id e);
      listed = λ q b there on.
          rw
            (
              any-write_at s.heap p a true h b.avatar_id (s.online_avatars ++ p ∷ []),
              any-append (has_id s.heap b.avatar_id) s.online_avatars (p ∷ []),
            )
            (joined q b there on);
    })
  ]

-- `LogoutAvatar` of an avatar that is flagged
abbrev pub logged_out : Ptr → ChatAvatar → Presence → Presence
logged_out p a s = record {
  heap = write_at p (record a { is_online = false }) s.heap;
  online_avatars = reject (has_id s.heap a.avatar_id) s.online_avatars;
}

-- An address has one id.
one_id_at :
    (heap : Heap) (q : Ptr) (i j : ℕ) → has_id heap i q ≡ true → has_id heap j q ≡ true → i ≡ j
unfolding has_id
one_id_at heap q i j h k = ground arith

any-reject_other :
    (heap : Heap) (i j : ℕ) (ps : List Ptr)
    → (i ≡ j → ⊥)
    → any (has_id heap i) ps ≡ true
    → any (has_id heap i) (reject (has_id heap j) ps) ≡ true
unfolding any reject
any-reject_other heap i j [] d e = e
any-reject_other heap i j (q ∷ ps) d e =
    ground (arith, any-reject_other heap i j ps d, one_id_at heap q i j)

module _ (s : Presence) (p : Ptr) (a : ChatAvatar) (i : IsSynced s) (h : s.heap p ≡ some a) where
  abbrev off : Heap
  off = write_at p (record a { is_online = false }) s.heap

  kept : (q : Ptr) → has_id s.heap a.avatar_id q ≡ false → is_flagged off q ≡ is_flagged s.heap q
  kept q e = elim (Bool-cases (q == p)) [
    | inl same ↦ absurd (hit_here q (ground arith) e)
    | inr other ↦
        ap
          (λ (o : Option ChatAvatar). elim o as (λ x. Bool) [ none ↦ false | some z ↦ z.is_online ])
          (write_at_other p q (record a { is_online = false }) s.heap other)
  ]
    where
      hit_here : (q : Ptr) → q ≡ p → has_id s.heap a.avatar_id q ≢ false
      hit_here q same e =
          let hit : has_id s.heap a.avatar_id p ≡ true = has_id-some s.heap p a h in cc

  rest_online :
      (ps : List Ptr)
      → All (Flagged s.heap) ps
      → All (Flagged off) (reject (has_id s.heap a.avatar_id) ps)
  unfolding reject
  rest_online [] k = tt
  rest_online (q ∷ ps) k = elim (Bool-cases (has_id s.heap a.avatar_id q)) [
    | inl e ↦ rw e (rest_online ps k.1)
    | inr e ↦ rw e (kept q e ∙ k.0, rest_online ps k.1)
  ]

  pub logged_out-IsSynced : HasDistinctIds s.heap → IsSynced (logged_out p a s)
  logged_out-IsSynced d = record {
    flagged = rest_online s.online_avatars i.flagged;
    unique = λ id.
        rw
          (count-write_at s.heap p a false h id
            (reject (has_id s.heap a.avatar_id) s.online_avatars))
          (omega (
            arith,
            count-reject (has_id s.heap a.avatar_id) (has_id s.heap id) s.online_avatars,
            i.unique id,
          ));
    listed = λ q b there on.
        rw
          (any-write_at s.heap p a false h b.avatar_id
            (reject (has_id s.heap a.avatar_id) s.online_avatars))
          (elim (read_changed s.heap p a false h q b there) [
            | inl (here, same) ↦ absurd (cc)
            | inr (other, old) ↦
                any-reject_other s.heap b.avatar_id a.avatar_id s.online_avatars
                  (λ e. apart q b other old e) (i.listed q b old on)
          ]);
  }
    where
      apart :
          (q : Ptr) (b : ChatAvatar)
          → q == p ≡ false
          → s.heap q ≡ some b
          → b.avatar_id ≢ a.avatar_id
      apart q b other old e = let same : q ≡ p = d q p b a old h e in ground arith

  pub logout_avatar-logged_out : a.is_online ≡ true → logout_avatar p s ≡ (ok tt, logged_out p a s)
  unfolding logout_avatar load store_at erase_online
  logout_avatar-logged_out on =
      let alive : all_alive off s.online_avatars ≡ true =
        all_alive-write_at s.heap p a false h s.online_avatars
          (all_alive-Flagged s.heap s.online_avatars i.flagged) in
      let hit : any (has_id off a.avatar_id) s.online_avatars ≡ true =
        any-write_at s.heap p a false h a.avatar_id s.online_avatars ∙ i.listed p a h on in
      let exact : erase_removed (has_id off a.avatar_id) s.online_avatars
          ≡ reject (has_id s.heap a.avatar_id) s.online_avatars =
        erase_removed-eq-reject (has_id off a.avatar_id) s.online_avatars (
          omega (
            arith,
            count-write_at s.heap p a false h a.avatar_id s.online_avatars,
            i.unique a.avatar_id,
          ))
        ∙ reject-write_at s.heap p a false h a.avatar_id s.online_avatars in
      rw (h, on, alive, hit, exact) refl
