-- ===== src/Avatar/Contacts/Examples.antt =====
-- Runs of the contacts of an avatar.
use stationapiv.Prelude.{
  ℕ, ◌+◌, ◌≡◌, refl, true, [], ◌∷◌, codes, any, find, count, erase_removed, arith,
}
use stationapiv.Storage.{
  no_website, Env, done, failed, int, text, statement, execute, done_or_raise, persist_friend,
  remove_ignore,
}
use stationapiv.Strings.{from_wide_string, c_str}
use stationapiv.Avatar.{Ptr, chat_avatar}
use stationapiv.Avatar.Contacts.{AvatarState, is_friend, is_ignored, make_friend, drop_ignore}
use stationapiv.Avatar.Contacts.Calls.{befriends, contact_call}
use stationapiv.Avatar.Contacts.Validity.{IsValid, contact_call-IsValid}
use stationapiv.Avatar.Contacts.Standing.{standing, friend, contact_call-standing}

abbrev avatar_id : Ptr → ℕ
avatar_id p = p + 100

abbrev healthy : Env
healthy = record {
  answer = λ h. done 1;
  char_is_signed = true;
  unix_time = 0;
  put_time = λ t. [];
  website = no_website;
}

abbrev broken : Env
broken = record {
  answer = λ h. failed 1;
  char_is_signed = true;
  unix_time = 0;
  put_time = λ t. [];
  website = no_website;
}

-- Ann ignores avatar 101.
ann : AvatarState
unfolding chat_avatar
ann = record {
  avatar = record (chat_avatar (codes "ann") (codes "swg") 7 0 []) {
    avatar_id = 100;
    ignore_list = record { ignored = 1 } ∷ [];
  };
  history = [];
}

ann-IsValid : IsValid avatar_id ann.avatar
unfolding ann count
ann-IsValid id = ground arith

statements :
    (contact_call avatar_id healthy (befriends 1 (codes "hi")) ann).1.history
    ≡ statement remove_ignore (int 100 ∷ int 101 ∷ [])
      ∷ statement persist_friend (int 100 ∷ int 101 ∷ text (codes "hi") ∷ [])
      ∷ []
unfolding ann contact_call make_friend drop_ignore is_friend is_ignored any execute done_or_raise
    from_wide_string c_str erase_removed
statements = refl

contact_call-IsValid_example :
    IsValid avatar_id (contact_call avatar_id broken (befriends 1 (codes "hi")) ann).1.avatar
contact_call-IsValid_example =
    contact_call-IsValid avatar_id broken (befriends 1 (codes "hi")) ann ann-IsValid

contact_call-standing_example :
    standing avatar_id (contact_call avatar_id healthy (befriends 1 (codes "hi")) ann).1.avatar 101
    ≡ friend (codes "hi")
unfolding ann contact_call make_friend drop_ignore is_friend is_ignored any find execute
    done_or_raise
contact_call-standing_example =
    contact_call-standing avatar_id healthy ann ann-IsValid 101 (befriends 1 (codes "hi")) refl
