-- ===== src/Avatar/Contacts/Standing.antt =====
-- What an avatar is to another: the view of the two lists of contacts that forgets their order, and
-- what the methods of src/stationchat/ChatAvatar.cpp do to it.
use stationapiv.Prelude.{
  ℕ, ◌≡◌, ◌++◌, refl, Bool, true, false, List, [], ◌∷◌, Text, Option, none, some, any, find, reject,
  erase_removed, any-append, count_pos, Bool-cases, inl, inr, if◌then◌else◌, ◌==◌, arith,
}
use stationapiv.Exec.{ok}
use stationapiv.Storage.{Env}
use stationapiv.Avatar.{Ptr, FriendContact, IgnoreContact, ChatAvatar}
use stationapiv.Avatar.Contacts.{
  AvatarState, is_frnd, is_ignoree, is_friend, is_ignored, set_comment, make_friend, drop_friend,
  change_comment, make_ignored, drop_ignore,
}
use stationapiv.Avatar.Contacts.Calls.{
  ContactCall, befriends, unfriends, comments, ignores, unignores, contact_call,
}
use stationapiv.Avatar.Contacts.Validity.{IsValid, erase_friend, erase_ignored}

-- A stranger, a friend with a comment, or ignored.
pub data Standing : Type 0 where
  stranger : Standing
  friend : Text → Standing
  ignored : Standing

-- The specification of the calls on the standing of the one avatar that they name.
abbrev pub after : ContactCall → Standing → Standing
after (befriends p comment) (friend old) = friend old
after (befriends p comment) stranger = friend comment
after (befriends p comment) ignored = friend comment
after (unfriends p) (friend old) = stranger
after (unfriends p) stranger = stranger
after (unfriends p) ignored = ignored
after (comments p comment) (friend old) = friend comment
after (comments p comment) stranger = stranger
after (comments p comment) ignored = ignored
after (ignores p) u = ignored
after (unignores p) ignored = stranger
after (unignores p) stranger = stranger
after (unignores p) (friend old) = friend old

abbrev pub named : ContactCall → Ptr
named (befriends p comment) = p
named (unfriends p) = p
named (comments p comment) = p
named (ignores p) = p
named (unignores p) = p

-- By the first friend found, else by whether it is ignored.
abbrev pub judge : Option FriendContact → Bool → Standing
judge (some c) b = friend c.comment
judge none true = ignored
judge none false = stranger

module _ (id_of : Ptr → ℕ) where
  abbrev pub standing : ChatAvatar → ℕ → Standing
  standing a id =
      judge (find (is_frnd id_of id) a.friend_list) (any (is_ignoree id_of id) a.ignore_list)

  find-append_friend :
      (id : ℕ) (cs : List FriendContact) (c : FriendContact)
      → any (is_frnd id_of (id_of c.frnd)) cs ≡ false
      → find (is_frnd id_of id) (cs ++ c ∷ [])
        ≡ (if id_of c.frnd == id then some c else find (is_frnd id_of id) cs)
  unfolding find any
  find-append_friend id [] c h = ground arith
  find-append_friend id (u ∷ cs) c h = ground (arith, find-append_friend id cs c)

  find-reject_friend :
      (id i : ℕ) (cs : List FriendContact)
      → find (is_frnd id_of id) (reject (is_frnd id_of i) cs)
        ≡ (if i == id then none else find (is_frnd id_of id) cs)
  unfolding find reject
  find-reject_friend id i [] = ground arith
  find-reject_friend id i (u ∷ cs) = ground (arith, find-reject_friend id i cs)

  any-reject_ignoree :
      (id i : ℕ) (cs : List IgnoreContact)
      → any (is_ignoree id_of id) (reject (is_ignoree id_of i) cs)
        ≡ (if i == id then false else any (is_ignoree id_of id) cs)
  unfolding any reject
  any-reject_ignoree id i [] = ground arith
  any-reject_ignoree id i (u ∷ cs) = ground (arith, any-reject_ignoree id i cs)

  any-eq-find :
      (id : ℕ) (cs : List FriendContact)
      → any (is_frnd id_of id) cs
        ≡ (elim (find (is_frnd id_of id) cs) [ none ↦ false | some c ↦ true ])
  unfolding find any
  any-eq-find id [] = refl
  any-eq-find id (u ∷ cs) = ground (arith, any-eq-find id cs)

  find-set_comment :
      (id i : ℕ) (comment : Text) (cs : List FriendContact)
      → find (is_frnd id_of id) (set_comment id_of i comment cs) ≡ (
          if i == id
          then (elim (find (is_frnd id_of id) cs) [
            | none ↦ none
            | some c ↦ some (record c { comment = comment })
          ])
          else find (is_frnd id_of id) cs)
  unfolding find set_comment
  find-set_comment id i comment [] = ground arith
  find-set_comment id i comment (u ∷ cs) = ground (arith, find-set_comment id i comment cs)

  -- An erase takes the one id out.
  find-erase_friend :
      (a : ChatAvatar) (i id : ℕ)
      → IsValid id_of a
      → find (is_frnd id_of id) (erase_removed (is_frnd id_of i) a.friend_list)
        ≡ (if i == id then none else find (is_frnd id_of id) a.friend_list)
  find-erase_friend a i id v = rw (erase_friend id_of a i v) (find-reject_friend id i a.friend_list)

  any-erase_ignored :
      (a : ChatAvatar) (i id : ℕ)
      → IsValid id_of a
      → any (is_ignoree id_of id) (erase_removed (is_ignoree id_of i) a.ignore_list)
        ≡ (if i == id then false else any (is_ignoree id_of id) a.ignore_list)
  any-erase_ignored a i id v =
      rw (erase_ignored id_of a i v) (any-reject_ignoree id i a.ignore_list)

  friend-not_ignored :
      (a : ChatAvatar) (id : ℕ)
      → IsValid id_of a
      → any (is_frnd id_of id) a.friend_list ≡ true
      → any (is_ignoree id_of id) a.ignore_list ≡ false
  friend-not_ignored a id v h = elim (Bool-cases (any (is_ignoree id_of id) a.ignore_list)) [
    | inl e ↦ absurd (
        omega (
          arith,
          v id,
          count_pos (is_frnd id_of id) a.friend_list h,
          count_pos (is_ignoree id_of id) a.ignore_list e,
        ))
    | inr e ↦ e
  ]

  module _ (env : Env) (s : AvatarState) (v : IsValid id_of s.avatar) (id : ℕ) where
    abbrev Meets : ContactCall → Type 0
    Meets c =
        (contact_call id_of env c s).0 ≡ ok tt
        → standing (contact_call id_of env c s).1.avatar id
          ≡ (if id_of (named c) == id then after c (standing s.avatar id) else standing s.avatar id)

    drop_friend-standing : (p : Ptr) → Meets (unfriends p)
    unfolding contact_call drop_friend is_friend
    drop_friend-standing p h = ground (
      arith,
      find-erase_friend s.avatar (id_of p) id v,
      any-eq-find (id_of p) s.avatar.friend_list,
      friend-not_ignored s.avatar id v,
      any-eq-find id s.avatar.friend_list,
    )

    drop_ignore-standing : (p : Ptr) → Meets (unignores p)
    unfolding contact_call drop_ignore is_ignored
    drop_ignore-standing p h = ground (arith, any-erase_ignored s.avatar (id_of p) id v)

    change_comment-standing : (p : Ptr) (comment : Text) → Meets (comments p comment)
    unfolding contact_call change_comment is_friend
    change_comment-standing p comment h = ground (
      arith,
      find-set_comment id (id_of p) comment s.avatar.friend_list,
      any-eq-find (id_of p) s.avatar.friend_list,
    )

    make_friend-standing : (p : Ptr) (comment : Text) → Meets (befriends p comment)
    unfolding contact_call make_friend drop_ignore is_friend is_ignored
    make_friend-standing p comment h = ground (
      arith,
      find-append_friend id s.avatar.friend_list (record { frnd = p; comment = comment }),
      any-eq-find (id_of p) s.avatar.friend_list,
      any-erase_ignored s.avatar (id_of p) id v,
    )

    make_ignored-standing : (p : Ptr) → Meets (ignores p)
    unfolding contact_call make_ignored drop_friend is_friend is_ignored any
    make_ignored-standing p h = ground (
      arith,
      any-append (is_ignoree id_of id) s.avatar.ignore_list (record { ignored = p } ∷ []),
      any-eq-find (id_of p) s.avatar.friend_list,
      find-erase_friend s.avatar (id_of p) id v,
      friend-not_ignored s.avatar id v,
      any-eq-find id s.avatar.friend_list,
    )

    -- A call of a method of the contacts that returns, on an avatar whose contacts are valid, does
    -- to the standing of the avatar that it names, stranger, friend with a comment, or ignored,
    -- what the specification says, and leaves every other standing as it is.
    pub contact_call-standing :
        (c : ContactCall)
        → (contact_call id_of env c s).0 ≡ ok tt
        → standing (contact_call id_of env c s).1.avatar id
          ≡ (if id_of (named c) == id then after c (standing s.avatar id) else standing s.avatar id)
    contact_call-standing (befriends p comment) h = make_friend-standing p comment h
    contact_call-standing (unfriends p) h = drop_friend-standing p h
    contact_call-standing (comments p comment) h = change_comment-standing p comment h
    contact_call-standing (ignores p) h = make_ignored-standing p h
    contact_call-standing (unignores p) h = drop_ignore-standing p h
