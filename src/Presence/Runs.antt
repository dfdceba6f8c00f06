-- ===== src/Presence/Runs.antt =====
-- Any sequence of logins and logouts.
use stationapiv.Prelude.{
  ◌≡◌, refl, sym, ap, ◌∙◌, Bool, true, false, List, [], ◌∷◌, some, All, ◌==◌, Bool-cases, inl, inr,
}
use stationapiv.Exec.{Exec, ok, pure, ◌>>◌}
use stationapiv.Avatar.{Ptr, ChatAvatar}
use stationapiv.Presence.{
  Heap, Presence, write_at, load, store_at, erase_online, login_avatar, logout_avatar,
}
use stationapiv.Presence.Synced.{
  IsSynced, HasDistinctIds, write_at_same, write_at_other, read_changed, logged_in,
  login_avatar-logged_in,
}
use stationapiv.Presence.Course.{
  logged_in-IsSynced, logged_out, logged_out-IsSynced, logout_avatar-logged_out,
}

pub data Event : Type 0 where
  login logout : Ptr → Event

abbrev pub handle : Event → Exec Presence (Unit {0})
handle (login p) = login_avatar p
handle (logout p) = logout_avatar p

unfoldable pub run : List Event → Exec Presence (Unit {0})
run [] = pure tt
run (e ∷ es) = handle e >> run es

abbrev pub address : Event → Ptr
address (login p) = p
address (logout p) = p

-- An avatar is at the address.
abbrev pub IsAlive : Heap → Ptr → Type 0
IsAlive heap p = (a : ChatAvatar) × (heap p ≡ some a)

module _ (heap : Heap) (p : Ptr) (a : ChatAvatar) (flag : Bool) (h : heap p ≡ some a) where
  abbrev next : Heap
  next = write_at p (record a { is_online = flag }) heap

  -- The avatar at an address before the write, with the id of the one after it
  before :
      (q : Ptr) (b : ChatAvatar)
      → next q ≡ some b
      → (c : ChatAvatar) × (heap q ≡ some c) × (c.avatar_id ≡ b.avatar_id)
  before q b e = elim (read_changed heap p a flag h q b e) [
    | inl (here, same) ↦ (a, ap heap here ∙ h, sym (ap (λ (x : ChatAvatar). x.avatar_id) same))
    | inr (other, old) ↦ (b, old, refl)
  ]

  next-HasDistinctIds : HasDistinctIds heap → HasDistinctIds next
  next-HasDistinctIds d q r b c eb ec same =
      let (b', eb', ib) = before q b eb in
      let (c', ec', ic) = before r c ec in d q r b' c' eb' ec' (ib ∙ same ∙ sym ic)

  next-IsAlive : (q : Ptr) → IsAlive heap q → IsAlive next q
  next-IsAlive q alive = elim (Bool-cases (q == p)) [
    | inl e ↦
        (record a { is_online = flag }, write_at_same p q (record a { is_online = flag }) heap e)
    | inr e ↦ (alive.0, write_at_other p q (record a { is_online = flag }) heap e ∙ alive.1)
  ]

  events-IsAlive :
      (es : List Event)
      → All (λ e. IsAlive heap (address e)) es
      → All (λ e. IsAlive next (address e)) es
  events-IsAlive [] k = tt
  events-IsAlive (e ∷ es) k = (next-IsAlive (address e) k.0, events-IsAlive es k.1)

logout_avatar-off :
    (s : Presence) (p : Ptr) (a : ChatAvatar)
    → s.heap p ≡ some a
    → a.is_online ≡ false
    → logout_avatar p s ≡ (ok tt, s)
unfolding logout_avatar load store_at erase_online
logout_avatar-off s p a h off = rw (h, off) refl

-- A state in which list and flags agree and the avatars of `es` are alive.
abbrev pub IsReady : List Event → Presence → Type 0
IsReady es s = IsSynced s × HasDistinctIds s.heap × All (λ e. IsAlive s.heap (address e)) es

step :
    (e : Event) (es : List Event) (s : Presence)
    → IsReady (e ∷ es) s
    → (t : Presence) × (handle e s ≡ (ok tt, t)) × IsReady es t
step (login p) es s (i, d, ((a, h), k)) = (
  logged_in p a s,
  login_avatar-logged_in s p a i h,
  (
    logged_in-IsSynced s p a i h,
    next-HasDistinctIds s.heap p a true h d,
    events-IsAlive s.heap p a true h es k,
  ),
)
step (logout p) es s (i, d, ((a, h), k)) = elim (Bool-cases a.is_online) [
  | inl on ↦ (
    logged_out p a s,
    logout_avatar-logged_out s p a i h on,
    (
      logged_out-IsSynced s p a i h d,
      next-HasDistinctIds s.heap p a false h d,
      events-IsAlive s.heap p a false h es k,
    ),
  )
  | inr off ↦ (s, logout_avatar-off s p a h off, (i, d, k))
]

-- From a state in which the list of the avatars online and their flags agree and no two avatars
-- have the same id, any sequence of logins and logouts of avatars on the heap returns, without
-- undefined behaviour, in a state in which they agree again.
pub run-IsSynced :
    (es : List Event) (s : Presence)
    → IsSynced s
    → HasDistinctIds s.heap
    → All (λ e. IsAlive s.heap (address e)) es
    → (t : Presence) × (run es s ≡ (ok tt, t)) × IsSynced t × HasDistinctIds t.heap
unfolding run
run-IsSynced [] s i d k = (s, refl, i, d)
run-IsSynced (e ∷ es) s i d k =
    let (t, q, (i', d', k')) = step e es s (i, d, k) in
    let (u, r, j, d'') = run-IsSynced es t i' d' k' in (u, rw q r, j, d'')
