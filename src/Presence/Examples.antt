-- ===== src/Presence/Examples.antt =====
-- Logins and logouts of two avatars.
use stationapiv.Prelude.{
  zero, suc, ◌+◌, ◌≡◌, refl, [], ◌∷◌, none, some, codes, count, any, false, arith,
}
use stationapiv.Exec.{ok}
use stationapiv.Avatar.{Ptr, ChatAvatar}
use stationapiv.Presence.{Heap, Presence}
use stationapiv.Presence.Synced.{IsSynced, HasDistinctIds}
use stationapiv.Presence.Runs.{login, logout, run, run-IsSynced}

abbrev ann : ChatAvatar
ann = record {
  avatar_id = 100;
  user_id = 7;
  name = codes "ann";
  address = codes "swg";
  attributes = 0;
  login_location = [];
  server = [];
  gateway = [];
  server_id = 0;
  gateway_id = 0;
  email = [];
  inbox_limit = 0;
  status_message = [];
  is_online = false;
  friend_list = [];
  ignore_list = [];
}

-- Avatars at the addresses 1 and 2, both offline.
lot : Heap
lot zero = none
lot (suc zero) = some ann
lot (suc (suc zero)) = some (record ann { avatar_id = 101 })
lot (suc (suc (suc p))) = none

abbrev start : Presence
start = record { heap = lot; online_avatars = [] }

-- Each avatar has the id of its address plus 99, and is offline.
lot_ids :
    (p : Ptr) (a : ChatAvatar) → lot p ≡ some a → (p + 99 ≡ a.avatar_id) × (a.is_online ≡ false)
unfolding lot
lot_ids zero a h = cc
lot_ids (suc zero) a h = (ground arith, ground arith)
lot_ids (suc (suc zero)) a h = (ground arith, ground arith)
lot_ids (suc (suc (suc p))) a h = cc

lot-HasDistinctIds : HasDistinctIds lot
lot-HasDistinctIds p q a b h k same = omega (arith, lot_ids p a h, lot_ids q b k, same)

start-IsSynced : IsSynced start
unfolding count any
start-IsSynced = record {
  flagged = tt;
  unique = λ id. ground arith;
  listed = λ p a h on. absurd (cc ((lot_ids p a h).1));
}

run-IsSynced_example :
    (t : Presence) × (run (login 1 ∷ login 2 ∷ logout 1 ∷ []) start ≡ (ok tt, t))
    × IsSynced t
    × HasDistinctIds t.heap
unfolding lot
run-IsSynced_example =
    run-IsSynced (login 1 ∷ login 2 ∷ logout 1 ∷ []) start start-IsSynced lot-HasDistinctIds
      ((ann, refl), ((record ann { avatar_id = 101 }, refl), ((ann, refl), tt)))
