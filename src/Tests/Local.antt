-- ===== src/Tests/Local.antt =====
-- One implementation of the crates, small enough to compute with. Hashes, addresses and keys are
-- single numbers; an update carries what the checks look at.
use native.Mathlib.Decide.{ℕ_discrete}
use ethereum_elc.Base.{
  ℕ, ◌+◌, ◌*◌, ◌≡◌, String, Bool, true, false, Bool-cases, inl, inr, str_eq, eq_iff, Option, none,
  some, List, [], ◌∷◌, Result, success, failure, length, ◌==◌, if◌then◌else◌,
}
use ethereum_elc.Std.{Duration}
use ethereum_elc.External.Proto.{IbcAny}
use ethereum_elc.ConsensusState.Codec.{nanos_per_second}

-- A hash is its first byte.
abbrev pub zeros : List ℕ
zeros =
    0 ∷ 0 ∷ 0 ∷ 0 ∷ 0 ∷ 0 ∷ 0 ∷ 0 ∷ 0 ∷ 0 ∷ 0 ∷ 0 ∷ 0 ∷ 0 ∷ 0 ∷ 0 ∷ 0 ∷ 0 ∷ 0 ∷ 0 ∷ 0 ∷ 0 ∷ 0 ∷ 0
    ∷ 0 ∷ 0 ∷ 0 ∷ 0 ∷ 0 ∷ 0 ∷ 0 ∷ []

abbrev pub hash_from : List ℕ → Option ℕ
hash_from [] = none
hash_from (b ∷ bs) = if length (b ∷ bs) == 32 then some b else none

abbrev pub first : List ℕ → Result (Unit {0}) ℕ
first [] = failure tt
first (b ∷ bs) = success b

pub string_dec : Discrete String
string_dec a b = elim (Bool-cases (str_eq a b)) [
  | inl p ↦ yes ((eq_iff a b).0 p)
  | inr p ↦ no (λ e. absurd (clash a b p e))
]
  where
    clash : (a b : String) → str_eq a b ≡ false → a ≡ b → ⊥
    clash a b p e = cc (p, (eq_iff a b).1 e)

pub record LocalFraction : Type 0 where
  pub numerator : ℕ
  pub denominator : ℕ

pub fraction_discrete : Discrete LocalFraction
fraction_discrete = hlevel ℕ_discrete

pub id_discrete : Discrete (IbcAny × IbcAny)
id_discrete = hlevel (string_dec, ℕ_discrete)

pub record LocalHeight : Type 0 where
  pub number : ℕ
  pub block : ℕ

-- The slots of a sync committee period.
pub record LocalContext : Type 0 where
  pub slots_per_period : ℕ

pub record LocalCommittee : Type 0 where
  pub height : LocalHeight
  pub key : ℕ
  pub next : Bool

pub record LocalUpdate : Type 0 where
  pub slot : ℕ
  pub next_key : ℕ

pub record LocalExecution : Type 0 where
  pub root : ℕ
  pub block : ℕ
  pub seconds : ℕ

abbrev pub fork_spec_all : Unit {0} → ℕ
fork_spec_all _ = 105

-- The end of a period after an instant, in nanoseconds.
abbrev pub nanos_after : ℕ → Duration → ℕ
nanos_after nanos d = nanos + (d.secs * nanos_per_second + d.subsec_nanos)

abbrev pub check : Bool → Result (Unit {0}) (Unit {0})
check true = success tt
check false = failure tt
