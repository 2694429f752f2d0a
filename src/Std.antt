-- ===== src/Std.antt =====
-- What the source uses of Rust's standard library: `core::time::Duration`, integer casts and
-- checked conversions, and the decimal `Display` of integers.
mod Int
mod Format
unfoldable pub use Int.*
unfoldable pub use Format.*
use native.Mathlib.Decide.{ℕ_discrete}
use ethereum_elc.Base.{ℕ, Bool, ◌&&◌, ◌==◌}

-- `core::time::Duration`: whole seconds (`u64`) and nanoseconds below one second.
pub record Duration : Type 0 where
  pub secs : ℕ
  pub subsec_nanos : ℕ

pub Duration-discrete : Discrete Duration
Duration-discrete = hlevel ℕ_discrete

-- `Duration::default()` and `Duration::ZERO`.
abbrev pub duration_zero : Duration
duration_zero = record { secs = 0; subsec_nanos = 0 }

-- The derived `PartialEq`.
abbrev pub duration_eq : Duration → Duration → Bool
duration_eq d e = d.secs == e.secs && d.subsec_nanos == e.subsec_nanos
