-- ===== src/Avatar/Contacts/Calls.antt =====
-- A call of a method of src/stationchat/ChatAvatar.cpp as a value.
use stationapiv.Prelude.{ℕ, Text}
use stationapiv.Exec.{Exec}
use stationapiv.Storage.{Env}
use stationapiv.Avatar.{Ptr}
use stationapiv.Avatar.Contacts.{
  AvatarState, make_friend, drop_friend, change_comment, make_ignored, drop_ignore,
}

pub data ContactCall : Type 0 where
  befriends : Ptr → Text → ContactCall
  unfriends : Ptr → ContactCall
  comments : Ptr → Text → ContactCall
  ignores : Ptr → ContactCall
  unignores : Ptr → ContactCall

unfoldable pub contact_call : (id_of : Ptr → ℕ) → Env → ContactCall → Exec AvatarState (Unit {0})
contact_call id_of env (befriends p comment) = make_friend id_of env p comment
contact_call id_of env (unfriends p) = drop_friend id_of env p
contact_call id_of env (comments p comment) = change_comment id_of env p comment
contact_call id_of env (ignores p) = make_ignored id_of env p
contact_call id_of env (unignores p) = drop_ignore id_of env p
