-- ===== src/Misc.antt =====
-- light-client/src/misc.rs: the framework's time and heights.
pub mod Bounds
use ethereum_elc.Base.{ℕ, Option, none, some, Outcome, err, try_with, ok_or, ◌>>=◌}
use ethereum_elc.Std.{i64_try_from}
use ethereum_elc.External.{Crates}
use ethereum_elc.Errors.{Error, time, timestamp_overflow}

module _ ⦃C : Crates⦄ where
  open C use {
    Time, Height, LcHeight, time_from_unix, height_new, revision_number, revision_height,
    lc_height_new, lc_revision_number, lc_revision_height,
  }

  unfoldable pub new_timestamp : ℕ → Outcome Error Time
  new_timestamp second = do
    seconds ← ok_or (i64_try_from second) (timestamp_overflow second)
    try_with time (time_from_unix seconds 0)

  abbrev pub to_lcp_height : LcHeight → Height
  to_lcp_height height = height_new (lc_revision_number height) (lc_revision_height height)

  abbrev pub to_lc_types_height : Height → LcHeight
  to_lc_types_height height = lc_height_new (revision_number height) (revision_height height)
