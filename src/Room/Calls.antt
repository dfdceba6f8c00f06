-- ===== src/Room/Calls.antt =====
-- The calls of the methods of `ChatRoom` as data, and the lists that they change.
use stationapiv.Prelude.{
  ℕ, ◌≡◌, refl, ◌++◌, Bool, true, false, not, ◌&&◌, List, [], ◌∷◌, Text, any, erase_removed, ltb,
  length, text_eq, if◌then◌else◌,
}
use stationapiv.Exec.{Exec}
use stationapiv.Storage.{Env}
use stationapiv.Room.{Ptr, ChatRoom, is_private, is_creator, has_id}
use stationapiv.Room.Methods.{
  RoomState, enter_room, leave_room, kick_avatar, add_administrator, add_moderator, add_banned,
  add_invite, remove_administrator, remove_moderator, remove_banned, remove_invite,
}

-- A call of one of the methods; the first number of the others is the id of the calling avatar.
pub data RoomCall : Type 0 where
  enters : Ptr → Text → RoomCall
  leaves : Ptr → RoomCall
  kicks adds_administrator adds_moderator adds_banned adds_invite : ℕ → Ptr → RoomCall
  removes_administrator removes_moderator removes_banned removes_invite : ℕ → ℕ → RoomCall

-- What an avatar can be to a room.
pub data Role : Type 0 where
  member administrator moderator ban invite : Role

abbrev pub list_of : Role → ChatRoom → List Ptr
list_of member r = r.avatars
list_of administrator r = r.administrators
list_of moderator r = r.moderators
list_of ban r = r.banned
list_of invite r = r.invited

abbrev pub with_list : Role → List Ptr → ChatRoom → ChatRoom
with_list member xs r = record r { avatars = xs }
with_list administrator xs r = record r { administrators = xs }
with_list moderator xs r = record r { moderators = xs }
with_list ban xs r = record r { banned = xs }
with_list invite xs r = record r { invited = xs }

abbrev pub same_role : Role → Role → Bool
same_role member member = true
same_role administrator administrator = true
same_role moderator moderator = true
same_role ban ban = true
same_role invite invite = true
same_role _ _ = false

pub list_of-with_list :
    (q role : Role) (xs : List Ptr) (r : ChatRoom)
    → list_of q (with_list role xs r) ≡ (if same_role role q then xs else list_of q r)
list_of-with_list member member xs r = refl
list_of-with_list administrator administrator xs r = refl
list_of-with_list moderator moderator xs r = refl
list_of-with_list ban ban xs r = refl
list_of-with_list invite invite xs r = refl
list_of-with_list _ _ xs r = refl

-- One avatar gets a role, or one id loses it.
pub data Change : Type 0 where
  joins : Role → Ptr → Change
  drops : Role → ℕ → Change

module _ (env : Env) (id_of : Ptr → ℕ) where
  unfoldable pub call : RoomCall → Exec RoomState (Unit {0})
  call (enters p password) = enter_room env id_of p password
  call (leaves p) = leave_room env id_of p
  call (kicks src p) = kick_avatar env id_of src p
  call (adds_administrator src p) = add_administrator env id_of src p
  call (adds_moderator src p) = add_moderator env id_of src p
  call (adds_banned src p) = add_banned env id_of src p
  call (adds_invite src p) = add_invite env id_of src p
  call (removes_administrator src id) = remove_administrator env id_of src id
  call (removes_moderator src id) = remove_moderator env id_of src id
  call (removes_banned src id) = remove_banned env id_of src id
  call (removes_invite src id) = remove_invite env id_of src id

module _ (id_of : Ptr → ℕ) where
  abbrev pub change_of : RoomCall → Change
  change_of (enters p password) = joins member p
  change_of (leaves p) = drops member (id_of p)
  change_of (kicks src p) = drops member (id_of p)
  change_of (adds_administrator src p) = joins administrator p
  change_of (adds_moderator src p) = joins moderator p
  change_of (adds_banned src p) = joins ban p
  change_of (adds_invite src p) = joins invite p
  change_of (removes_administrator src id) = drops administrator id
  change_of (removes_moderator src id) = drops moderator id
  change_of (removes_banned src id) = drops ban id
  change_of (removes_invite src id) = drops invite id

  abbrev pub apply_change : Change → ChatRoom → ChatRoom
  apply_change (joins role p) r = with_list role (list_of role r ++ p ∷ []) r
  apply_change (drops role id) r =
      with_list role (erase_removed (has_id id_of id) (list_of role r)) r

  abbrev pub holds : Role → ChatRoom → ℕ → Bool
  holds role r id = any (has_id id_of id) (list_of role r)

  -- Whether `avatar` may enter `r` with `password`.
  abbrev pub may_enter : ChatRoom → Ptr → Text → Bool
  may_enter r avatar password =
      not (ltb 0 (length r.room_password) && not (text_eq r.room_password password))
      && not (holds ban r (id_of avatar))
      && not (holds member r (id_of avatar))
      && not
          (is_private r && not (is_creator r (id_of avatar)) && not (holds invite r (id_of avatar)))

  -- Whether a call changes the room: the caller has the right, and there is something to change.
  abbrev pub is_effective : RoomCall → ChatRoom → Bool
  is_effective (enters p password) r = may_enter r p password
  is_effective (leaves p) r = holds member r (id_of p)
  is_effective (kicks src p) r = holds moderator r src && holds member r (id_of p)
  is_effective (adds_administrator src p) r =
      is_creator r src && not (holds administrator r (id_of p))
  is_effective (adds_moderator src p) r = is_creator r src && not (holds moderator r (id_of p))
  is_effective (adds_banned src p) r = holds moderator r src && not (holds ban r (id_of p))
  is_effective (adds_invite src p) r = holds moderator r src && not (holds invite r (id_of p))
  is_effective (removes_administrator src id) r = is_creator r src && holds administrator r id
  is_effective (removes_moderator src id) r = is_creator r src && holds moderator r id
  is_effective (removes_banned src id) r = holds moderator r src && holds ban r id
  is_effective (removes_invite src id) r = holds moderator r src && holds invite r id

-- The calls that reach the database where they are effective and the room is persistent
abbrev pub is_stored : RoomCall → Bool
is_stored (adds_administrator src p) = true
is_stored (adds_moderator src p) = true
is_stored (adds_banned src p) = true
is_stored (removes_administrator src id) = true
is_stored (removes_moderator src id) = true
is_stored (removes_banned src id) = true
is_stored _ = false
