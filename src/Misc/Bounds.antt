-- ===== src/Misc/Bounds.antt =====
-- light-client/src/misc.rs: the range of `new_timestamp`.
use ethereum_elc.Base.{ℕ, ◌≡◌, ◌<◌, ◌≤◌, err, try_with, arith, ◌↔◌}
use ethereum_elc.Std.{pos, i64_bound}
use ethereum_elc.External.{Crates}
use ethereum_elc.Errors.{time, timestamp_overflow}
use ethereum_elc.Misc.{new_timestamp}

module _ ⦃C : Crates⦄ where
  open C use {Time, time_from_unix}

  -- `new_timestamp` reports an overflow on exactly the seconds that an `i64` does not hold, and
  -- below them it gives the framework's time of that second, or the framework's error.
  pub new_timestamp_range :
      (second : ℕ)
      → ((new_timestamp second ≡ err (timestamp_overflow second)) ↔ (i64_bound ≤ second))
        × (second < i64_bound
            → new_timestamp second ≡ try_with time (time_from_unix (pos second) 0))
  unfolding new_timestamp
  new_timestamp_range second = ((λ h. ground arith, λ h. ground arith), λ h. ground arith)
