-- ===== src/Handler/Fast/Tests.antt =====
-- A run of the wait group.
use httpdump.Base.{ℕ, ◌<◌, ◌≡◌, ◌≢◌, ◌↔◌, true, [], length, panic}
use httpdump.Handler.Fast.{Fast, new_fast, handle, reader_done, finish_returns}
use httpdump.Handler.Fast.Group.{start, given, after, Reached-finish}

abbrev busy : Fast
busy = handle 1 (handle 1 new_fast)

Reached-finish_example :
    ((i : ℕ) → i < length busy.running → reader_done i busy ≢ panic)
    × ((finish_returns busy ≡ true) ↔ (busy.running ≡ []))
Reached-finish_example = Reached-finish 1 busy (after (after start given) given)
