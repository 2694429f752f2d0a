-- ===== src/Tests/Instants.antt =====
-- Instants that fit what the framework's `Time` holds, as a bounded number of nanoseconds.
use std.HLevel.{prop→path_p}
use native.Mathlib.Decide.{ℕ_discrete}
use ethereum_elc.Base.{
  ℕ, ◌+◌, ◌*◌, ◌/◌, ◌%◌, ◌<◌, ◌≡◌, refl, ap, Bool, true, false, ltb, Result, success, failure,
  arith,
}
use ethereum_elc.Std.{ℤ, pos, negsuc, i64_bound}
use ethereum_elc.ConsensusState.Codec.{nanos_per_second}

abbrev pub bound : ℕ
bound = i64_bound * nanos_per_second

pub record Instant : Type 0 where
  pub nanos : ℕ
  pub fits : ltb nanos bound ≡ true

fits_prop : (n : ℕ) → IsProp (ltb n bound ≡ true)
fits_prop n = hlevel

pub same_instant : (s t : Instant) → s.nanos ≡ t.nanos → s ≡ t
same_instant s t p = λ i. record {
  nanos = p i;
  fits = prop→path_p (λ i. ltb (p i) bound ≡ true) (fits_prop t.nanos) s.fits t.fits i;
}

abbrev pub instant_dec : Discrete Instant
instant_dec s t = elim (ℕ_discrete s.nanos t.nanos) [
  | yes p ↦ yes (same_instant s t p)
  | no n ↦ no (λ e. n (ap (λ (t : Instant). t.nanos) e))
]

abbrev pub instant_at : (n : ℕ) (b : Bool) → ltb n bound ≡ b → Result (Unit {0}) Instant
instant_at n true p = success (record { nanos = n; fits = p })
instant_at n false p = failure tt

abbrev pub instant : ℕ → Result (Unit {0}) Instant
instant n = instant_at n (ltb n bound) refl

abbrev pub instant_from_parts : ℤ → ℕ → Result (Unit {0}) Instant
instant_from_parts (pos seconds) nanos = instant (seconds * nanos_per_second + nanos)
instant_from_parts (negsuc n) nanos = failure tt

instant_at_nanos :
    (n : ℕ) (b : Bool) (p : ltb n bound ≡ b) (t : Instant)
    → n ≡ t.nanos
    → instant_at n b p ≡ success t
instant_at_nanos n true p t e = ap success (same_instant _ t e)
instant_at_nanos n false p t e = let q = t.fits in ground arith

pub instant_from_parts_of :
    (t : Instant)
    → instant_from_parts (pos (t.nanos / nanos_per_second)) (t.nanos % nanos_per_second) ≡ success t
instant_from_parts_of t = instant_at_nanos _ _ refl t (omega arith)

pub instant_bound : (t : Instant) → t.nanos < i64_bound * nanos_per_second
instant_bound t = let q = t.fits in ground arith

instant_at_total :
    (n : ℕ) (b : Bool) (p : ltb n bound ≡ b)
    → n < bound
    → (t : Instant) × (instant_at n b p ≡ success t) × (t.nanos ≡ n)
instant_at_total n true p h = (record { nanos = n; fits = p }, refl, refl)
instant_at_total n false p h = absurd (ground arith)

pub instant_total : (n : ℕ) → n < bound → (t : Instant) × (instant n ≡ success t) × (t.nanos ≡ n)
instant_total n h = instant_at_total n (ltb n bound) refl h
