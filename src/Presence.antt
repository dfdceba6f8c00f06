-- ===== src/Presence.antt =====
-- Who is online: `LoginAvatar`, `LogoutAvatar` and `IsOnline` of
-- src/stationchat/ChatAvatarService.cpp. The avatars lie on a heap, since the list of those online
-- points to them and a flag in each says the same.
pub mod Synced
pub mod Course
pub mod Runs
mod Examples
use stationapiv.Prelude.{
  ℕ, Bool, true, false, not, ◌&&◌, List, [], ◌∷◌, ◌++◌, Option, none, some, any, erase_removed,
  ◌==◌, if◌then◌else◌,
}
use stationapiv.Exec.{Result, ok, fault, Exec, pure, gets, modify, undefined, when, ◌>>=◌, ◌>>◌}
use stationapiv.Avatar.{Ptr, ChatAvatar}

-- `none` is an address with no avatar at it, freed or never allocated.
abbrev pub Heap : Type 0
Heap = Ptr → Option ChatAvatar

pub record Presence : Type 0 where
  pub heap : Heap
  pub online_avatars : List Ptr

unfoldable pub write_at : Ptr → ChatAvatar → Heap → Heap
write_at p a heap q = if q == p then some a else heap q

-- `p->…`
unfoldable pub load : Ptr → Exec Presence ChatAvatar
load p = do s ← gets (λ s. s); elim (s.heap p) [ none ↦ undefined | some a ↦ pure a ]

unfoldable pub store_at : Ptr → ChatAvatar → Exec Presence (Unit {0})
store_at p a = modify (λ s. record s { heap = write_at p a s.heap })

-- `onlineAvatar->GetAvatarId() == id`; at a dead address the loops below stop first.
unfoldable pub has_id : Heap → ℕ → Ptr → Bool
has_id heap id p = elim (heap p) [ none ↦ false | some a ↦ a.avatar_id == id ]

-- The loop of `IsOnline`
unfoldable pub scan_online : Heap → ℕ → List Ptr → Result Bool
scan_online heap id [] = ok false
scan_online heap id (p ∷ ps) =
    let rest = scan_online heap id ps in
    elim (heap p) [ none ↦ fault | some a ↦ if a.avatar_id == id then ok true else rest ]

unfoldable pub is_online : ℕ → Exec Presence Bool
is_online id s = (scan_online s.heap id s.online_avatars, s)

-- `std::remove_if` looks at every avatar.
unfoldable pub all_alive : Heap → List Ptr → Bool
all_alive heap [] = true
all_alive heap (p ∷ ps) = (elim (heap p) [ none ↦ false | some a ↦ true ]) && all_alive heap ps

-- `onlineAvatars_.erase(std::remove_if(…))`: with no hit it erases `end()`, which is undefined.
unfoldable pub erase_online : ℕ → Exec Presence (Unit {0})
erase_online id s =
    if all_alive s.heap s.online_avatars && any (has_id s.heap id) s.online_avatars
    then (ok tt, record s { online_avatars = erase_removed (has_id s.heap id) s.online_avatars })
    else (fault, s)

unfoldable pub login_avatar : Ptr → Exec Presence (Unit {0})
unfolding load store_at is_online
login_avatar p = do
  a ← load p
  store_at p (record a { is_online = true })
  listed ← is_online a.avatar_id
  when (not listed) (modify (λ s. record s { online_avatars = s.online_avatars ++ p ∷ [] }))

unfoldable pub logout_avatar : Ptr → Exec Presence (Unit {0})
unfolding load store_at erase_online
logout_avatar p = do
  a ← load p
  when a.is_online do store_at p (record a { is_online = false }); erase_online a.avatar_id
