-- ===== src/Tests/UnitExamples.antt =====
-- The unit tests, in the crates of `Instances`.
use native.Mathlib.Decide.{ℕ_discrete}
use ethereum_elc.Base.{ℕ, Option, ◌≡◌, ◌≢◌, refl, ap, some, List, [], ◌∷◌, ok, success, arith}
use ethereum_elc.ClientState.Codec.{fork_parameters_into}
use ethereum_elc.UnitTests.{replicate, run_tests}
use ethereum_elc.UnitTests.Fixtures.{TestCrates, IsFixture}
use ethereum_elc.UnitTests.ClientStates.Pass.{client_state_tests, client_state_tests_pass}
use ethereum_elc.Tests.Instants.{instant_total}
use ethereum_elc.Tests.Local.{LocalFraction, LocalHeight, hash_from}
use ethereum_elc.Tests.Instances.{local_crates, local_fraction}
use ethereum_elc.Tests.Handlers.{local_services}
use ethereum_elc.Tests.Lawful.{
  local-IsLawful, local-IsCodec, local-IsWritable, fork_parameters_kept,
}

height_discrete : Discrete LocalHeight
height_discrete = hlevel ℕ_discrete

pub optional_height_dec : Discrete (Option LocalHeight)
optional_height_dec = hlevel height_discrete

unit_discrete : Discrete (Unit {0})
unit_discrete = hlevel

abbrev first_or_zero : List ℕ → ℕ
first_or_zero [] = 0
first_or_zero (b ∷ bs) = b

-- Forks are their epochs.
abbrev local_test_crates : TestCrates
local_test_crates = record {
  version = first_or_zero;
  address = first_or_zero;
  fork_parameter_new = λ v epoch spec. epoch;
  ForkError = Unit;
  fork_parameters_new = λ v fs. success fs;
  altair_fork_spec = tt;
  bellatrix_fork_spec = tt;
  capella_fork_spec = tt;
  deneb_fork_spec = tt;
  preset_seconds_per_slot = 6;
  preset_slots_per_epoch = 8;
  preset_epochs_per_sync_committee_period = 8;
  height_dec = height_discrete;
  consensus_verifier_dec = unit_discrete;
  execution_verifier_dec = unit_discrete;
}

ones : (h : ℕ) → hash_from (replicate 32 1) ≡ some h → h ≢ 0
ones h e = ground arith

thirds :
    (f : LocalFraction)
    → local_fraction 2 3 ≡ success f
    → f ≢ record { numerator = 0; denominator = 1 }
thirds f e = ground arith

kept : (v : ℕ) (fs p : List ℕ) → local_test_crates.fork_parameters_new v fs ≡ success p → p ≡ fs
kept v fs p e = ground arith

local-IsFixture : IsFixture local_test_crates
local-IsFixture = record {
  ones-ne-default = ones;
  test_address-ne-default = ground arith;
  fork_parameters_new_total = λ v fs h. (fs, refl);
  forks-new = λ v fs p e. kept v fs p e;
  fork_parameters_readable =
      λ v fs p e. (fork_parameters_into p, ap success (fork_parameters_kept p));
  fork_epoch-new = λ v n spec. refl;
  forks-default = refl;
  second_fork = refl;
  lc_revision_number-new = λ n h. refl;
  lc_revision_height-new = λ n h. refl;
  seconds_positive = ground arith;
  slots_positive = ground arith;
  epochs_positive = ground arith;
  two_thirds = (_, refl);
  two_thirds-ne-default = thirds;
  duration_written = λ d h. refl;
  time_from_nanos_total = instant_total;
  test_key = (_, refl);
  test_key-ne-default = λ k e. ground arith;
}

local_client_state_tests : run_tests (client_state_tests local_test_crates) ≡ ok tt
local_client_state_tests =
    client_state_tests_pass local_test_crates local-IsLawful local-IsFixture local-IsCodec
      local-IsWritable
