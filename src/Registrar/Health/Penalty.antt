-- ===== src/Registrar/Health/Penalty.antt =====
-- How long a gateway that failed is left out.
use stationapiv.Prelude.{◌⊎◌, ℕ, ◌+◌, ◌*◌, ◌≤◌, ◌<◌, ◌≡◌, ◌↔◌, true, leb, if◌then◌else◌, arith}
use stationapiv.Registrar.Health.{
  EndpointHealth, is_blacklisted_at, mark_failure, mark_success, prune_entry, second,
}

-- A failure at a time leaves the gateway out from then on for five seconds at least and sixty at
-- most, and one more failure at that time for longer until the sixty are reached; a pruning
-- frees it and forgets its failures from the end on and not before.
pub mark_failure_penalty :
    (now t : ℕ) (h : EndpointHealth)
    → let failed : EndpointHealth = mark_failure now h in
      ((is_blacklisted_at t failed ≡ true) ↔ (t < failed.blacklist_until))
      × (now + 5 * second ≤ failed.blacklist_until)
      × (failed.blacklist_until ≤ now + 60 * second)
      × (failed.blacklist_until ≤ (mark_failure now failed).blacklist_until)
      × ((failed.blacklist_until ≡ now + 60 * second)
          ⊎ (failed.blacklist_until < (mark_failure now failed).blacklist_until))
      × (failed.failure_count ≤ 65535)
      × (prune_entry t failed
          ≡ (if leb failed.blacklist_until t then mark_success failed else failed))
unfolding mark_failure is_blacklisted_at prune_entry mark_success
mark_failure_penalty now t h = (
  ground arith,
  ground arith,
  ground arith,
  ground arith,
  ground arith,
  ground arith,
  ground arith,
)
