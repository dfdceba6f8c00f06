-- ===== src/Room/Audience.antt =====
-- Who hears of what happens in a room: the lists for a broadcast in src/stationchat/ChatRoom.cpp.
-- The avatars that the room points to are alive.
use stationapiv.Prelude.{
  ℕ, ◌≤◌, ◌≡◌, refl, sym, ap, ◌∙◌, ◌++◌, Bool, true, false, not, ◌&&◌, List, [], ◌∷◌, Text, text_eq,
  text_eq→eq, text_eq_refl, any, count, count-append, count_zero, count_pos, if◌then◌else◌, ◌==◌,
  Bool-cases, inl, inr, arith,
}
use stationapiv.Avatar.{ChatAvatar}
use stationapiv.Avatar.Contacts.{is_ignored}
use stationapiv.Room.{Ptr, ChatRoom}

-- `push_back` of an address that is not there
unfoldable pub add_new : Text → List Text → List Text
add_new address addresses =
    if any (λ connected. text_eq connected address) addresses
    then addresses
    else addresses ++ address ∷ []

module _ (avatar_of : Ptr → ChatAvatar) where
  -- The loop of `GetAvatarIds`, for the avatars that do not ignore the id.
  unfoldable pub hearing_ids : ℕ → List Ptr → List ℕ
  hearing_ids src_id [] = []
  hearing_ids src_id (p ∷ ps) =
      let rest = hearing_ids src_id ps in
      if not (is_ignored (λ q. (avatar_of q).avatar_id) (avatar_of p) src_id)
      then (avatar_of p).avatar_id ∷ rest
      else rest

  unfoldable pub get_avatar_ids : ℕ → ChatRoom → List ℕ
  get_avatar_ids src_id r = hearing_ids src_id r.avatars

  -- The loops of `GetConnectedAddresses` and `GetRemoteAddresses`
  unfoldable pub connected_from : List Text → List Ptr → List Text
  connected_from addresses [] = addresses
  connected_from addresses (p ∷ ps) = connected_from (add_new (avatar_of p).address addresses) ps

  unfoldable pub get_connected_addresses : ChatRoom → List Text
  get_connected_addresses r = connected_from [] r.avatars

  unfoldable pub remote_from : Text → List Text → List Ptr → List Text
  remote_from creator addresses [] = addresses
  remote_from creator addresses (p ∷ ps) =
      remote_from creator
        (if not (text_eq creator (avatar_of p).address)
          then add_new (avatar_of p).address addresses
          else addresses)
        ps

  unfoldable pub get_remote_addresses : ChatRoom → List Text
  get_remote_addresses r = remote_from r.creator_address [] r.avatars

  -- Whether an avatar of the list is connected from the address.
  abbrev pub is_from : Text → List Ptr → Bool
  is_from a ps = any (λ p. text_eq (avatar_of p).address a) ps

abbrev pub occurrences : Text → List Text → ℕ
occurrences a addresses = count (λ x. text_eq x a) addresses

occurrences-add_new :
    (a b : Text) (addresses : List Text)
    → occurrences a addresses ≤ 1
    → occurrences a (add_new b addresses) ≡ (if text_eq b a then 1 else occurrences a addresses)
unfolding add_new count
occurrences-add_new a b addresses h = elim (Bool-cases (text_eq b a)) [
  | inl e ↦ rw (text_eq→eq b a e) (
      ground (
        arith,
        h,
        text_eq_refl a,
        count-append (λ x. text_eq x a) addresses (a ∷ []),
        count_zero (λ x. text_eq x a) addresses,
        count_pos (λ x. text_eq x a) addresses,
      ))
  | inr e ↦ ground (arith, e, count-append (λ x. text_eq x a) addresses (b ∷ []))
]

module _ (avatar_of : Ptr → ChatAvatar) (a : Text) where
  connected_from-occurrences :
      (addresses : List Text) (ps : List Ptr)
      → occurrences a addresses ≤ 1
      → occurrences a (connected_from avatar_of addresses ps)
        ≡ (if is_from avatar_of a ps then 1 else occurrences a addresses)
  unfolding connected_from any
  connected_from-occurrences addresses [] h = refl
  connected_from-occurrences addresses (p ∷ ps) h =
      let step : occurrences a (add_new (avatar_of p).address addresses)
          ≡ (if text_eq (avatar_of p).address a then 1 else occurrences a addresses) =
        occurrences-add_new a (avatar_of p).address addresses h in
      ground (arith, step, connected_from-occurrences (add_new (avatar_of p).address addresses) ps)

  -- Addresses other than the creator's only
  remote_from-occurrences :
      (creator : Text) (addresses : List Text) (ps : List Ptr)
      → occurrences a addresses ≤ 1
      → occurrences a (remote_from avatar_of creator addresses ps)
        ≡ (if is_from avatar_of a ps && not (text_eq creator a) then 1 else occurrences a addresses)
  unfolding remote_from any
  remote_from-occurrences creator addresses [] h = ground arith
  remote_from-occurrences creator addresses (p ∷ ps) h =
      elim (Bool-cases (text_eq creator (avatar_of p).address)) [
        | inl e ↦ rw e (remote_from-occurrences creator addresses ps h ∙ own e)
        | inr e ↦ rw e (
            remote_from-occurrences creator (add_new (avatar_of p).address addresses) ps
              (bound (avatar_of p).address)
            ∙ other e)
      ]
    where
      bound : (b : Text) → occurrences a (add_new b addresses) ≤ 1
      bound b = ground (arith, occurrences-add_new a b addresses h, h)

      own :
          text_eq creator (avatar_of p).address ≡ true
          → (if is_from avatar_of a ps && not (text_eq creator a)
              then 1
              else occurrences a addresses)
            ≡ (if is_from avatar_of a (p ∷ ps) && not (text_eq creator a)
                then 1
                else occurrences a addresses)
      own e =
          let same : text_eq (avatar_of p).address a ≡ text_eq creator a =
            ap (λ x. text_eq x a) (sym (text_eq→eq creator (avatar_of p).address e)) in
          ground (arith, same)

      apart :
          text_eq creator (avatar_of p).address ≡ false
          → text_eq (avatar_of p).address a ≡ true
          → text_eq creator a ≡ false
      apart e m = ap (text_eq creator) (sym (text_eq→eq (avatar_of p).address a m)) ∙ e

      other :
          text_eq creator (avatar_of p).address ≡ false
          → (if is_from avatar_of a ps && not (text_eq creator a)
              then 1
              else occurrences a (add_new (avatar_of p).address addresses))
            ≡ (if is_from avatar_of a (p ∷ ps) && not (text_eq creator a)
                then 1
                else occurrences a addresses)
      other e = ground (arith, occurrences-add_new a (avatar_of p).address addresses h, apart e)

  -- An address is among the connected ones of a room once, if an avatar in the room is from it, and
  -- else not at all.
  get_connected_addresses-occurrences :
      (r : ChatRoom)
      → occurrences a (get_connected_addresses avatar_of r)
        ≡ (if is_from avatar_of a r.avatars then 1 else 0)
  unfolding get_connected_addresses count
  get_connected_addresses-occurrences r = connected_from-occurrences [] r.avatars (omega arith)

  -- An address is among the remote ones of a room once, if an avatar in the room is from it and it
  -- is not the creator's, and else not at all.
  pub get_remote_addresses-occurrences :
      (r : ChatRoom)
      → occurrences a (get_remote_addresses avatar_of r)
        ≡ (if is_from avatar_of a r.avatars && not (text_eq r.creator_address a) then 1 else 0)
  unfolding get_remote_addresses count
  get_remote_addresses-occurrences r =
      ground (arith, remote_from-occurrences r.creator_address [] r.avatars (omega arith))

-- The ids for a broadcast are those of the avatars in the room that do not ignore its source.
pub get_avatar_ids-heard :
    (avatar_of : Ptr → ChatAvatar) (src_id id : ℕ) (r : ChatRoom)
    → any (λ x. x == id) (get_avatar_ids avatar_of src_id r)
      ≡ any
          (λ p.
            (avatar_of p).avatar_id == id
            && not (is_ignored (λ q. (avatar_of q).avatar_id) (avatar_of p) src_id))
          r.avatars
unfolding get_avatar_ids hearing_ids any
get_avatar_ids-heard avatar_of src_id id r = heard r.avatars
  where
    heard :
        (ps : List Ptr)
        → any (λ x. x == id) (hearing_ids avatar_of src_id ps)
          ≡ any
              (λ p.
                (avatar_of p).avatar_id == id
                && not (is_ignored (λ q. (avatar_of q).avatar_id) (avatar_of p) src_id))
              ps
    heard [] = refl
    heard (p ∷ ps) = ground (arith, heard ps)
