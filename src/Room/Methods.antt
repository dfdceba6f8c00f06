-- ===== src/Room/Methods.antt =====
-- The methods of `ChatRoom` that change a room, over the room and the database, and the statements
-- of src/stationchat/ChatRoomService.cpp that they issue.
use stationapiv.Prelude.{
  ℕ, ◌+◌, ◌%◌, ◌^◌, ◌++◌, Bool, not, ◌&&◌, List, [], ◌∷◌, Text, ltb, length, text_eq, any,
  erase_removed, if◌then◌else◌,
}
use stationapiv.Enums.ResultCode.{
  room_privateroom, room_bannedavatar, room_alreadyinroom, room_noprivileges, room_notinroom,
  room_duplicatemoderator, room_duplicateban, room_duplicateinvite, room_destavatarnotmoderator,
  room_destavatarnotbanned, room_destavatarnotinvited,
}
use stationapiv.Exec.{Exec, pure, undefined, gets, modify, guard, when, zoom, ◌>>=◌, ◌>>◌}
use stationapiv.Storage.{
  Env, History, Sql, persist_banned, delete_banned, delete_moderator, delete_administrator, Value,
  null, int, statement, execute,
}
use stationapiv.Room.{
  Ptr, ChatRoom, is_private, is_persistent, is_creator, has_id, is_in_room, is_moderator,
  is_administrator, is_banned, is_invited,
}

-- A room and the statements executed so far.
pub record RoomState : Type 0 where
  pub room : ChatRoom
  pub history : History

abbrev pub get_room : Exec RoomState ChatRoom
get_room = gets (λ s. s.room)

abbrev pub put_room : ChatRoom → Exec RoomState (Unit {0})
put_room r = modify (λ s. record s { room = r })

-- `vec.erase(std::remove_if(…))`: with no hit the iterator is `end()`, and erasing it is undefined.
unfoldable pub erase_or_fault : (Ptr → Bool) → List Ptr → Exec RoomState (List Ptr)
erase_or_fault p xs = if any p xs then pure (erase_removed p xs) else undefined

-- `if (IsPersistent()) { roomService_->…; }`
abbrev pub persisting : ChatRoom → Exec RoomState (Unit {0}) → Exec RoomState (Unit {0})
persisting r m = when (is_persistent r) (if r.has_room_service then m else undefined)

module _ (env : Env) where
  abbrev pub run_statement : Sql → List Value → Exec RoomState (Unit {0})
  run_statement sql ps =
      zoom (λ s. s.history) (λ s h. record s { history = h }) (execute env (statement sql ps))
      >> pure tt

  -- The INSERT names @banned_avatar_id, and the method binds @moderator_avatar_id: the former stays
  -- unbound.
  unfoldable pub persist_banned_row : ℕ → ℕ → Exec RoomState (Unit {0})
  persist_banned_row banned_id room_id = run_statement persist_banned (null ∷ int room_id ∷ [])

  unfoldable pub delete_row : Sql → ℕ → ℕ → Exec RoomState (Unit {0})
  delete_row sql avatar_id room_id = run_statement sql (int avatar_id ∷ int room_id ∷ [])

  module _ (id_of : Ptr → ℕ) where
    unfoldable pub enter_room : Ptr → Text → Exec RoomState (Unit {0})
    enter_room avatar password = do
      r ← get_room
      guard (not (ltb 0 (length r.room_password) && not (text_eq r.room_password password)))
          room_privateroom
      guard (not (is_banned id_of r (id_of avatar))) room_bannedavatar
      guard (not (is_in_room id_of r (id_of avatar))) room_alreadyinroom
      guard
          (not (
            is_private r
            && not (is_creator r (id_of avatar))
            && not (is_invited id_of r (id_of avatar))))
          room_privateroom
      put_room (record r { avatars = r.avatars ++ avatar ∷ [] })

    unfoldable pub leave_room : Ptr → Exec RoomState (Unit {0})
    leave_room avatar = do
      r ← get_room
      when (any (has_id id_of (id_of avatar)) r.avatars)
          (put_room (record r { avatars = erase_removed (has_id id_of (id_of avatar)) r.avatars }))

    unfoldable pub kick_avatar : ℕ → Ptr → Exec RoomState (Unit {0})
    unfolding leave_room
    kick_avatar src_avatar_id dest_avatar = do
      r ← get_room
      guard (is_moderator id_of r src_avatar_id) room_noprivileges
      guard (is_in_room id_of r (id_of dest_avatar)) room_notinroom
      leave_room dest_avatar

    -- A new administrator of a persistent room is persisted as banned.
    unfoldable pub add_administrator : ℕ → Ptr → Exec RoomState (Unit {0})
    unfolding persist_banned_row
    add_administrator src_avatar_id administrator = do
      r ← get_room
      guard (is_creator r src_avatar_id) room_noprivileges
      when (not (is_administrator id_of r (id_of administrator))) do
        put_room (record r { administrators = r.administrators ++ administrator ∷ [] })
        persisting r (persist_banned_row (id_of administrator) r.room_id)

    -- A new moderator of a persistent room is persisted as banned.
    unfoldable pub add_moderator : ℕ → Ptr → Exec RoomState (Unit {0})
    unfolding persist_banned_row
    add_moderator src_avatar_id moderator = do
      r ← get_room
      guard (is_creator r src_avatar_id) room_noprivileges
      guard (not (is_moderator id_of r (id_of moderator))) room_duplicatemoderator
      put_room (record r { moderators = r.moderators ++ moderator ∷ [] })
      persisting r (persist_banned_row (id_of moderator) r.room_id)

    unfoldable pub add_banned : ℕ → Ptr → Exec RoomState (Unit {0})
    unfolding persist_banned_row
    add_banned src_avatar_id banned = do
      r ← get_room
      guard (is_moderator id_of r src_avatar_id) room_noprivileges
      guard (not (is_banned id_of r (id_of banned))) room_duplicateban
      put_room (record r { banned = r.banned ++ banned ∷ [] })
      persisting r (persist_banned_row (id_of banned) r.room_id)

    unfoldable pub add_invite : ℕ → Ptr → Exec RoomState (Unit {0})
    add_invite src_avatar_id invited = do
      r ← get_room
      guard (is_moderator id_of r src_avatar_id) room_noprivileges
      guard (not (is_invited id_of r (id_of invited))) room_duplicateinvite
      put_room (record r { invited = r.invited ++ invited ∷ [] })

    unfoldable pub remove_administrator : ℕ → ℕ → Exec RoomState (Unit {0})
    unfolding erase_or_fault delete_row
    remove_administrator src_avatar_id avatar_id = do
      r ← get_room
      guard (is_creator r src_avatar_id) room_noprivileges
      when (ltb 0 (length r.administrators)) do
        kept ← erase_or_fault (has_id id_of avatar_id) r.administrators
        put_room (record r { administrators = kept })
        persisting r (delete_row delete_administrator avatar_id r.room_id)

    unfoldable pub remove_moderator : ℕ → ℕ → Exec RoomState (Unit {0})
    unfolding erase_or_fault delete_row
    remove_moderator src_avatar_id avatar_id = do
      r ← get_room
      guard (is_creator r src_avatar_id) room_noprivileges
      guard (ltb 0 (length r.moderators) && is_moderator id_of r avatar_id)
          room_destavatarnotmoderator
      kept ← erase_or_fault (has_id id_of avatar_id) r.moderators
      put_room (record r { moderators = kept })
      persisting r (delete_row delete_moderator avatar_id r.room_id)

    unfoldable pub remove_banned : ℕ → ℕ → Exec RoomState (Unit {0})
    unfolding erase_or_fault delete_row
    remove_banned src_avatar_id avatar_id = do
      r ← get_room
      guard (is_moderator id_of r src_avatar_id) room_noprivileges
      guard (ltb 0 (length r.banned) && is_banned id_of r avatar_id) room_destavatarnotbanned
      kept ← erase_or_fault (has_id id_of avatar_id) r.banned
      put_room (record r { banned = kept })
      persisting r (delete_row delete_banned avatar_id r.room_id)

    unfoldable pub remove_invite : ℕ → ℕ → Exec RoomState (Unit {0})
    unfolding erase_or_fault
    remove_invite src_avatar_id avatar_id = do
      r ← get_room
      guard (is_moderator id_of r src_avatar_id) room_noprivileges
      guard (ltb 0 (length r.invited) && is_invited id_of r avatar_id) room_destavatarnotinvited
      kept ← erase_or_fault (has_id id_of avatar_id) r.invited
      put_room (record r { invited = kept })

-- `roomMessageId_++` on a `uint32_t`
unfoldable pub get_next_message_id : Exec RoomState ℕ
get_next_message_id = do
  r ← get_room
  put_room (record r { room_message_id = (r.room_message_id + 1) % 2 ^ 32 })
  pure r.room_message_id
