-- ===== src/Presence/Synced.antt =====
-- The list of the avatars online and their flags say the same.
use stationapiv.Prelude.{
  ℕ, ◌≤◌, ◌≡◌, refl, sym, ap, ◌∙◌, ◌++◌, Bool, true, false, List, [], ◌∷◌, Option, none, some, any,
  count, reject, All, ◌==◌, if◌then◌else◌, Bool-cases, Option-cases, ◌⊎◌, inl, inr, arith,
}
use stationapiv.Exec.{ok}
use stationapiv.Avatar.{Ptr, ChatAvatar}
use stationapiv.Presence.{
  Heap, Presence, write_at, load, store_at, has_id, scan_online, is_online, all_alive, login_avatar,
}

-- Whether an avatar is at the address and its flag is set.
abbrev pub is_flagged : Heap → Ptr → Bool
is_flagged heap p = elim (heap p) [ none ↦ false | some a ↦ a.is_online ]

abbrev pub Flagged : Heap → Ptr → Type 0
Flagged heap p = is_flagged heap p ≡ true

-- Each avatar of the list is alive and flagged, no id stands in it twice, and each flagged avatar
-- stands in it.
pub record IsSynced (s : Presence) : Type 0 where
  pub flagged : All (Flagged s.heap) s.online_avatars
  pub unique : (id : ℕ) → count (has_id s.heap id) s.online_avatars ≤ 1
  pub listed :
      (p : Ptr) (a : ChatAvatar)
      → s.heap p ≡ some a
      → a.is_online ≡ true
      → any (has_id s.heap a.avatar_id) s.online_avatars ≡ true

-- No two avatars on the heap have the same id.
abbrev pub HasDistinctIds : Heap → Type 0
HasDistinctIds heap =
    (p q : Ptr) (a b : ChatAvatar)
    → heap p ≡ some a
    → heap q ≡ some b
    → a.avatar_id ≡ b.avatar_id
    → p ≡ q

pub scan_online-Flagged :
    (heap : Heap) (id : ℕ) (ps : List Ptr)
    → All (Flagged heap) ps
    → scan_online heap id ps ≡ ok (any (has_id heap id) ps)
unfolding scan_online any has_id
scan_online-Flagged heap id [] h = refl
scan_online-Flagged heap id (p ∷ ps) h = ground (arith, scan_online-Flagged heap id ps h.1, h.0)

pub all_alive-Flagged :
    (heap : Heap) (ps : List Ptr) → All (Flagged heap) ps → all_alive heap ps ≡ true
unfolding all_alive
all_alive-Flagged heap [] h = refl
all_alive-Flagged heap (p ∷ ps) h = ground (arith, all_alive-Flagged heap ps h.1, h.0)

-- An avatar with the id of one in the list is that one, so it is flagged.
pub any-flag :
    (heap : Heap) (p : Ptr) (a : ChatAvatar) (ps : List Ptr)
    → HasDistinctIds heap
    → heap p ≡ some a
    → All (Flagged heap) ps
    → any (has_id heap a.avatar_id) ps ≡ true
    → a.is_online ≡ true
unfolding any has_id
any-flag heap p a [] d h k e = cc
any-flag heap p a (q ∷ ps) d h k e = elim (Option-cases (heap q)) [
  | inl n ↦ ground (arith, any-flag heap p a ps d h k.1, k.0)
  | inr (b, u) ↦ elim (Bool-cases (b.avatar_id == a.avatar_id)) [
    | inl same ↦
        let here : q ≡ p = d q p b a u h (ground arith) in
        let equal : some b ≡ some a = sym u ∙ ap heap here ∙ h in
        let flag : b.is_online ≡ true = ground (arith, k.0) in ground (arith, equal)
    | inr other ↦ ground (arith, any-flag heap p a ps d h k.1)
  ]
]

-- Where list and flags agree and no two avatars have the same id, `IsOnline` of an avatar on the
-- heap is its flag.
is_online-IsSynced :
    (s : Presence) (p : Ptr) (a : ChatAvatar)
    → IsSynced s
    → HasDistinctIds s.heap
    → s.heap p ≡ some a
    → is_online a.avatar_id s ≡ (ok a.is_online, s)
unfolding is_online
is_online-IsSynced s p a i d h =
    ap (λ x. (x, s))
      (scan_online-Flagged s.heap a.avatar_id s.online_avatars i.flagged
        ∙ ap (λ b. ok b)
            (elim (Bool-cases (any (has_id s.heap a.avatar_id) s.online_avatars)) [
              | inl e ↦ e ∙ sym (any-flag s.heap p a s.online_avatars d h i.flagged e)
              | inr e ↦ ground (arith, i.listed p a h)
            ]))

pub write_at_same :
    (p q : Ptr) (b : ChatAvatar) (heap : Heap) → q == p ≡ true → write_at p b heap q ≡ some b
unfolding write_at
write_at_same p q b heap e = rw e refl

pub write_at_other :
    (p q : Ptr) (b : ChatAvatar) (heap : Heap) → q == p ≡ false → write_at p b heap q ≡ heap q
unfolding write_at
write_at_other p q b heap e = rw e refl

has_id_at :
    (id : ℕ) (o u : Option ChatAvatar)
    → (x y : ChatAvatar) → o ≡ some x
    → u ≡ some y
    → x.avatar_id ≡ y.avatar_id
    → ◌≡◌ {A = Bool}
        (elim o [ none ↦ false | some z ↦ z.avatar_id == id ])
        (elim u [ none ↦ false | some z ↦ z.avatar_id == id ])
has_id_at id o u x y e d s = rw (e, d, s) refl

module _ (heap : Heap) (p : Ptr) (a : ChatAvatar) (flag : Bool) (here : heap p ≡ some a) where
  abbrev changed : Heap
  changed = write_at p (record a { is_online = flag }) heap

  pub has_id-write_at : (id : ℕ) (q : Ptr) → has_id changed id q ≡ has_id heap id q
  unfolding has_id
  has_id-write_at id q = elim (Bool-cases (q == p)) [
    | inl e ↦
        let same : q ≡ p = ground arith in
        let there : heap q ≡ some a = ap heap same ∙ here in
        has_id_at id (changed q) (heap q) (record a { is_online = flag }) a
          (write_at_same p q (record a { is_online = flag }) heap e) there refl
    | inr e ↦
        ap
          (λ (o : Option ChatAvatar). elim o as (λ x. Bool) [
            | none ↦ false
            | some z ↦ z.avatar_id == id
          ])
          (write_at_other p q (record a { is_online = flag }) heap e)
  ]

  pub any-write_at : (id : ℕ) (ps : List Ptr) → any (has_id changed id) ps ≡ any (has_id heap id) ps
  unfolding any
  any-write_at id [] = refl
  any-write_at id (q ∷ ps) = rw (has_id-write_at id q, any-write_at id ps) refl

  pub count-write_at :
      (id : ℕ) (ps : List Ptr) → count (has_id changed id) ps ≡ count (has_id heap id) ps
  unfolding count
  count-write_at id [] = refl
  count-write_at id (q ∷ ps) = rw (has_id-write_at id q, count-write_at id ps) refl

  pub reject-write_at :
      (id : ℕ) (ps : List Ptr) → reject (has_id changed id) ps ≡ reject (has_id heap id) ps
  unfolding reject
  reject-write_at id [] = refl
  reject-write_at id (q ∷ ps) = rw (has_id-write_at id q, reject-write_at id ps) refl

  pub all_alive-write_at : (ps : List Ptr) → all_alive heap ps ≡ true → all_alive changed ps ≡ true
  unfolding all_alive
  all_alive-write_at [] h = refl
  all_alive-write_at (q ∷ ps) h = elim (Bool-cases (q == p)) [
    | inl e ↦
        rw (write_at_same p q (record a { is_online = flag }) heap e)
          (all_alive-write_at ps (ground arith))
    | inr e ↦
        rw (write_at_other p q (record a { is_online = flag }) heap e)
          (ground (arith, all_alive-write_at ps))
  ]

  -- What the write does to an avatar read back
  pub read_changed :
      (q : Ptr) (b : ChatAvatar)
      → changed q ≡ some b
      → ((q ≡ p) × (b ≡ record a { is_online = flag })) ⊎ ((q == p ≡ false) × (heap q ≡ some b))
  read_changed q b h = elim (Bool-cases (q == p)) [
    | inl e ↦
        let same : some (record a { is_online = flag }) ≡ some b =
          sym (write_at_same p q (record a { is_online = flag }) heap e) ∙ h in
        inl (ground arith, cc)
    | inr e ↦ inr (e, sym (write_at_other p q (record a { is_online = flag }) heap e) ∙ h)
  ]

pub mark_online :
    (heap : Heap) (p : Ptr) (a : ChatAvatar) (ps : List Ptr)
    → All (Flagged heap) ps
    → All (Flagged (write_at p (record a { is_online = true }) heap)) ps
mark_online heap p a [] h = tt
mark_online heap p a (q ∷ ps) h = (
  elim (Bool-cases (q == p)) [
    | inl e ↦
        ap
          (λ (o : Option ChatAvatar). elim o as (λ x. Bool) [ none ↦ false | some z ↦ z.is_online ])
          (write_at_same p q (record a { is_online = true }) heap e)
    | inr e ↦
        ap
          (λ (o : Option ChatAvatar). elim o as (λ x. Bool) [ none ↦ false | some z ↦ z.is_online ])
          (write_at_other p q (record a { is_online = true }) heap e)
        ∙ h.0
  ],
  mark_online heap p a ps h.1,
)

pub online_here :
    (heap : Heap) (p : Ptr) (a : ChatAvatar)
    → Flagged (write_at p (record a { is_online = true }) heap) p
online_here heap p a =
    ap (λ (o : Option ChatAvatar). elim o as (λ x. Bool) [ none ↦ false | some z ↦ z.is_online ])
      (write_at_same p p (record a { is_online = true }) heap (ground arith))

pub has_id-some :
    (heap : Heap) (p : Ptr) (a : ChatAvatar) → heap p ≡ some a → has_id heap a.avatar_id p ≡ true
unfolding has_id
has_id-some heap p a h = rw (h, has_id) (ground arith)

-- `LoginAvatar` of an avatar on the heap: it returns, and list and flags go on saying the same.
abbrev pub logged_in : Ptr → ChatAvatar → Presence → Presence
logged_in p a s = record {
  heap = write_at p (record a { is_online = true }) s.heap;
  online_avatars =
      if any (has_id s.heap a.avatar_id) s.online_avatars
      then s.online_avatars
      else s.online_avatars ++ p ∷ [];
}

pub login_avatar-logged_in :
    (s : Presence) (p : Ptr) (a : ChatAvatar)
    → IsSynced s
    → s.heap p ≡ some a
    → login_avatar p s ≡ (ok tt, logged_in p a s)
unfolding login_avatar load store_at is_online
login_avatar-logged_in s p a i h =
    rw
      (
        h,
        scan_online-Flagged (write_at p (record a { is_online = true }) s.heap) a.avatar_id
            s.online_avatars (mark_online s.heap p a s.online_avatars i.flagged),
        any-write_at s.heap p a true h a.avatar_id s.online_avatars,
      )
      (elim (Bool-cases (any (has_id s.heap a.avatar_id) s.online_avatars)) [
        | inl e ↦ rw e refl
        | inr e ↦ rw e refl
      ])
