-- ===== src/AvatarService/Extension.antt =====
-- Loading never takes an avatar out of the cache, nor moves the one that a key finds.
use stationapiv.Prelude.{
  ◌≡◌, refl, true, List, [], ◌∷◌, ◌++◌, none, some, ◌==◌, Bool-cases, inl, inr, arith,
}
use stationapiv.Avatar.{Ptr, ChatAvatar}
use stationapiv.AvatarService.{Cell, AvatarService, Key, is_keyed, get_cached_avatar, change_at}

-- Every key that finds an avatar in `s` finds it in `t`.
abbrev pub Extends : AvatarService → AvatarService → Type 0
Extends s t =
    (k : Key) (p : Ptr)
    → get_cached_avatar k s.avatar_cache ≡ some p
    → get_cached_avatar k t.avatar_cache ≡ some p

pub get_cached_avatar-append :
    (k : Key) (p : Ptr) (cs ds : List Cell)
    → get_cached_avatar k cs ≡ some p
    → get_cached_avatar k (cs ++ ds) ≡ some p
unfolding get_cached_avatar
get_cached_avatar-append k p [] ds h = cc
get_cached_avatar-append k p (c ∷ cs) ds h = ground (arith, get_cached_avatar-append k p cs ds)

pub get_cached_avatar_new :
    (k : Key) (c : Cell) (cs : List Cell)
    → get_cached_avatar k cs ≡ none
    → is_keyed k c.avatar ≡ true
    → get_cached_avatar k (cs ++ c ∷ []) ≡ some c.at
unfolding get_cached_avatar
get_cached_avatar_new k c [] h e = rw e refl
get_cached_avatar_new k c (d ∷ cs) h e = ground (arith, get_cached_avatar_new k c cs)

-- A change of an avatar that no key sees.
abbrev pub KeepsKeys : (ChatAvatar → ChatAvatar) → Type 0
KeepsKeys f = (k : Key) (a : ChatAvatar) → is_keyed k (f a) ≡ is_keyed k a

pub get_cached_avatar-change_at :
    (k : Key) (p : Ptr) (f : ChatAvatar → ChatAvatar) (cs : List Cell)
    → KeepsKeys f
    → get_cached_avatar k (change_at p f cs) ≡ get_cached_avatar k cs
unfolding get_cached_avatar change_at
get_cached_avatar-change_at k p f [] h = refl
get_cached_avatar-change_at k p f (c ∷ cs) h = elim (Bool-cases (c.at == p)) [
  | inl e ↦ rw (e, h k c.avatar, get_cached_avatar-change_at k p f cs h) refl
  | inr e ↦ rw (e, get_cached_avatar-change_at k p f cs h) refl
]
