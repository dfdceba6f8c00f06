-- ===== src/AvatarService/Examples.antt =====
-- The cycle of the two friends is loaded, and a new avatar is created.
use stationapiv.Prelude.{
  ℕ, suc, ◌+◌, ◌≡◌, refl, List, [], ◌∷◌, Option, none, some, codes, length, map, text_eq,
}
use stationapiv.Exec.{Result, ok}
use stationapiv.Exec.Fuel.{resume, for_each}
use stationapiv.Storage.{
  statement, execute, done_or_raise, column_text, query, rows_or_raise, int, text, insert_avatar,
}
use stationapiv.Strings.{c_str, from_wide_string}
use stationapiv.Avatar.{Ptr, FriendContact, chat_avatar}
use stationapiv.AvatarService.{
  avatar_at, change_at, Cell, AvatarService, by_name, by_id, get_cached_avatar, create_avatar, Key,
}
use stationapiv.AvatarService.Load.{get_avatar}
use stationapiv.AvatarService.Fuel.{get_avatar-terminates}
use stationapiv.AvatarService.Again.{get_avatar-create_avatar}
use stationapiv.AvatarService.Friends.{
  friends_env, empty_service, both_ids, friends_env-Selects, friends_env-Knows,
}

-- The addresses of the friends of each avatar of the cache.
abbrev friends : AvatarService → List (List Ptr)
friends s =
    map (λ (c : Cell). map (λ (f : FriendContact). f.frnd) c.avatar.friend_list) s.avatar_cache

abbrev summary : Option (Result (Option Ptr) × AvatarService) → List (List Ptr)
summary none = []
summary (some (r, s)) = friends s

-- Ann at 1 has a friend at 2, who has a friend at 1.
cycle_loaded : summary (get_avatar friends_env 4 (by_id 1) empty_service) ≡ (2 ∷ []) ∷ (1 ∷ []) ∷ []
unfolding get_avatar resume query rows_or_raise column_text avatar_at for_each change_at chat_avatar
cycle_loaded = refl

cycle_by_name :
    summary (get_avatar friends_env 4 (by_name (codes "ann") (codes "SWG+naboo")) empty_service)
    ≡ (2 ∷ []) ∷ (1 ∷ []) ∷ []
unfolding get_avatar resume query rows_or_raise column_text avatar_at for_each change_at chat_avatar
    text_eq c_str from_wide_string
cycle_by_name = refl

-- Two calls deep, the fuel ends before the friend of the friend is found in the cache.
cycle_exhausted : get_avatar friends_env 2 (by_id 1) empty_service ≡ none
unfolding get_avatar resume query rows_or_raise column_text avatar_at for_each
cycle_exhausted = refl

abbrev ann : Key
ann = by_name (codes "ann") (codes "SWG+naboo")

get_avatar-terminates_example :
    (r : Result (Option Ptr) × AvatarService) × ((more : ℕ)
      → get_avatar friends_env (more + suc (suc (length both_ids))) ann empty_service ≡ some r)
get_avatar-terminates_example =
    get_avatar-terminates friends_env both_ids friends_env-Selects friends_env-Knows ann
      empty_service

abbrev created_service : AvatarService
created_service = record {
  avatar_cache =
      record {
        at = 1;
        avatar = record (chat_avatar (codes "zed") (codes "SWG+naboo") 7 0 []) { avatar_id = 3 };
      }
      ∷ [];
  online_avatars = [];
  next = 2;
  history =
      statement insert_avatar (int 7 ∷ text (codes "zed") ∷ text (codes "SWG+naboo") ∷ int 0 ∷ [])
      ∷ [];
}

get_avatar-create_avatar_example :
    get_avatar friends_env 1 (by_name (codes "zed") (codes "SWG+naboo")) created_service
    ≡ some (ok (some 1), created_service)
unfolding create_avatar get_cached_avatar execute done_or_raise c_str from_wide_string
get_avatar-create_avatar_example =
    get_avatar-create_avatar friends_env (codes "zed") (codes "SWG+naboo") [] 7 0 0 1 empty_service
      created_service refl refl
