-- ===== src/Avatar/Contacts/Validity.antt =====
-- No id stands twice among the contacts of an avatar.
use stationapiv.Prelude.{
  ℕ, ◌+◌, ◌≤◌, ◌≡◌, List, [], ◌∷◌, Text, count, reject, erase_removed, erase_removed-eq-reject,
  count-append, count_zero, count-reject, any-reject_self, arith, refl,
}
use stationapiv.Storage.{Env}
use stationapiv.Avatar.{Ptr, FriendContact, IgnoreContact, ChatAvatar}
use stationapiv.Avatar.Contacts.{
  AvatarState, is_frnd, is_ignoree, is_friend, is_ignored, set_comment, make_friend, drop_friend,
  change_comment, make_ignored, drop_ignore,
}
use stationapiv.Avatar.Contacts.Calls.{
  ContactCall, befriends, unfriends, comments, ignores, unignores, contact_call,
}

module _ (id_of : Ptr → ℕ) where
  -- An id is a friend once, or ignored once, or neither.
  abbrev pub IsValid : ChatAvatar → Type 0
  IsValid a =
      (id : ℕ)
      → count (is_frnd id_of id) a.friend_list + count (is_ignoree id_of id) a.ignore_list ≤ 1

  count-set_comment :
      (id other : ℕ) (comment : Text) (cs : List FriendContact)
      → count (is_frnd id_of other) (set_comment id_of id comment cs)
        ≡ count (is_frnd id_of other) cs
  unfolding count set_comment
  count-set_comment id other comment [] = refl
  count-set_comment id other comment (c ∷ cs) =
      ground (arith, count-set_comment id other comment cs)

  pub erase_friend :
      (a : ChatAvatar) (id : ℕ)
      → IsValid a
      → erase_removed (is_frnd id_of id) a.friend_list ≡ reject (is_frnd id_of id) a.friend_list
  erase_friend a id v =
      erase_removed-eq-reject (is_frnd id_of id) a.friend_list (omega (arith, v id))

  pub erase_ignored :
      (a : ChatAvatar) (id : ℕ)
      → IsValid a
      → erase_removed (is_ignoree id_of id) a.ignore_list
        ≡ reject (is_ignoree id_of id) a.ignore_list
  erase_ignored a id v =
      erase_removed-eq-reject (is_ignoree id_of id) a.ignore_list (omega (arith, v id))

  -- Where an id stands once at most, an erase takes it out and adds none.
  count-erase_friend :
      (a : ChatAvatar) (i id : ℕ)
      → IsValid a
      → let kept : List FriendContact = erase_removed (is_frnd id_of i) a.friend_list in
        (count (is_frnd id_of id) kept ≤ count (is_frnd id_of id) a.friend_list)
        × (count (is_frnd id_of i) kept ≡ 0)
  count-erase_friend a i id v = rw (erase_friend a i v) (
    count-reject (is_frnd id_of i) (is_frnd id_of id) a.friend_list,
    count_zero (is_frnd id_of i) _ (any-reject_self (is_frnd id_of i) a.friend_list),
  )

  count-erase_ignored :
      (a : ChatAvatar) (i id : ℕ)
      → IsValid a
      → let kept : List IgnoreContact = erase_removed (is_ignoree id_of i) a.ignore_list in
        (count (is_ignoree id_of id) kept ≤ count (is_ignoree id_of id) a.ignore_list)
        × (count (is_ignoree id_of i) kept ≡ 0)
  count-erase_ignored a i id v = rw (erase_ignored a i v) (
    count-reject (is_ignoree id_of i) (is_ignoree id_of id) a.ignore_list,
    count_zero (is_ignoree id_of i) _ (any-reject_self (is_ignoree id_of i) a.ignore_list),
  )

  module _ (env : Env) where
    drop_friend-IsValid :
        (p : Ptr) (s : AvatarState)
        → IsValid s.avatar
        → IsValid (drop_friend id_of env p s).1.avatar
    unfolding drop_friend is_friend
    drop_friend-IsValid p s v id = rw (erase_friend s.avatar (id_of p) v) (
        ground (
          arith,
          v id,
          count-reject (is_frnd id_of (id_of p)) (is_frnd id_of id) s.avatar.friend_list,
        ))

    drop_ignore-IsValid :
        (p : Ptr) (s : AvatarState)
        → IsValid s.avatar
        → IsValid (drop_ignore id_of env p s).1.avatar
    unfolding drop_ignore is_ignored
    drop_ignore-IsValid p s v id = rw (erase_ignored s.avatar (id_of p) v) (
        ground (
          arith,
          v id,
          count-reject (is_ignoree id_of (id_of p)) (is_ignoree id_of id) s.avatar.ignore_list,
        ))

    change_comment-IsValid :
        (p : Ptr) (comment : Text) (s : AvatarState)
        → IsValid s.avatar
        → IsValid (change_comment id_of env p comment s).1.avatar
    unfolding change_comment is_friend
    change_comment-IsValid p comment s v id =
        ground (arith, v id, count-set_comment (id_of p) id comment s.avatar.friend_list)

    make_friend-IsValid :
        (p : Ptr) (comment : Text) (s : AvatarState)
        → IsValid s.avatar
        → IsValid (make_friend id_of env p comment s).1.avatar
    unfolding make_friend drop_ignore is_friend is_ignored count
    make_friend-IsValid p comment s v id =
        let i : ℕ = id_of p in
        ground (
          arith,
          v id,
          count-append (is_frnd id_of id) s.avatar.friend_list
              (record { frnd = p; comment = comment } ∷ []),
          count-erase_ignored s.avatar i id v,
          count_zero (is_frnd id_of i) s.avatar.friend_list,
          count_zero (is_ignoree id_of i) s.avatar.ignore_list,
        )

    make_ignored-IsValid :
        (p : Ptr) (s : AvatarState)
        → IsValid s.avatar
        → IsValid (make_ignored id_of env p s).1.avatar
    unfolding make_ignored drop_friend is_friend is_ignored count
    make_ignored-IsValid p s v id =
        let i : ℕ = id_of p in
        ground (
          arith,
          v id,
          count-append (is_ignoree id_of id) s.avatar.ignore_list (record { ignored = p } ∷ []),
          count-erase_friend s.avatar i id v,
          count_zero (is_frnd id_of i) s.avatar.friend_list,
          count_zero (is_ignoree id_of i) s.avatar.ignore_list,
        )

    -- Whatever method of the contacts is called and whatever the database answers, no avatar comes
    -- to stand twice among the contacts, as a friend, as ignored, or as both, if none did before.
    pub contact_call-IsValid :
        (c : ContactCall) (s : AvatarState)
        → IsValid s.avatar
        → IsValid (contact_call id_of env c s).1.avatar
    unfolding contact_call
    contact_call-IsValid (befriends p comment) s v = make_friend-IsValid p comment s v
    contact_call-IsValid (unfriends p) s v = drop_friend-IsValid p s v
    contact_call-IsValid (comments p comment) s v = change_comment-IsValid p comment s v
    contact_call-IsValid (ignores p) s v = make_ignored-IsValid p s v
    contact_call-IsValid (unignores p) s v = drop_ignore-IsValid p s v
