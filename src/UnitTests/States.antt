-- ===== src/UnitTests/States.antt =====
-- light-client/src/client_state.rs and light-client/src/consensus_state.rs, modules `tests`: the states
-- that the tests use.
use native.Mathlib.Decide.{ℕ_discrete}
use ethereum_elc.Base.{◌*◌, Option, none, List, [], ◌∷◌, ok, ◌>>=◌, unwrap, expect}
use ethereum_elc.Std.{Duration-discrete}
use ethereum_elc.External.{Crates}
use ethereum_elc.ClientState.{ClientState}
use ethereum_elc.UnitTests.{TestRun, replicate}
use ethereum_elc.UnitTests.Fixtures.{TestCrates, test_address_bytes, test_pubkey_bytes}
use ethereum_elc.ConsensusState.{ConsensusState}

module _ ⦃C : Crates⦄ where
  open C use {
    Time, PublicKey, H256, h256_from_slice, h256_dec, h256_default, public_key_try_from,
    public_key_dec, public_key_default, time_from_nanos, time_dec, as_unix_timestamp_nanos, Any,
  }

  -- The derived `PartialEq`
  pub consensus_state_dec : Discrete ConsensusState
  consensus_state_dec = hlevel (ℕ_discrete, h256_dec, public_key_dec, time_dec)

  -- The struct of `create_test_consensus_state`.
  abbrev pub test_consensus_state : PublicKey → H256 → Time → ConsensusState
  test_consensus_state pubkey root timestamp = record {
    slot = 100;
    storage_root = root;
    timestamp = timestamp;
    current_sync_committee = pubkey;
    next_sync_committee = pubkey;
  }

  unfoldable pub create_test_consensus_state : TestRun ConsensusState
  create_test_consensus_state = do
    pubkey ← expect (public_key_try_from test_pubkey_bytes)
    root ← unwrap (h256_from_slice (replicate 32 1))
    timestamp ← expect (time_from_nanos 1000000000000000000)
    ok (test_consensus_state pubkey root timestamp)

module _ ⦃C : Crates⦄ (T : TestCrates) where
  open C use {
    H256, Height, Version, ForkParameters, Fraction, h256_from_slice, h256_dec, h256_default,
    fraction_new, fork_parameters_dec, address_dec, fraction_dec, height_new, revision_number,
    revision_height, lc_revision_number, lc_revision_height, consensus_verifier_default,
    execution_verifier_default, time_from_nanos, Any,
  }

  -- The derived `PartialEq`, and that of `Option<Height>`.
  pub client_state_dec : Discrete ClientState
  client_state_dec = hlevel (
    ℕ_discrete, h256_dec, fork_parameters_dec, address_dec, fraction_dec, Duration-discrete,
    T.height_dec, T.consensus_verifier_dec, T.execution_verifier_dec,
  )

  pub frozen_height_dec : Discrete (Option Height)
  frozen_height_dec = hlevel T.height_dec

  unfoldable pub four_forks : List C.ForkParameter
  four_forks =
      T.fork_parameter_new (T.version (1 ∷ 0 ∷ 0 ∷ 1 ∷ [])) 0 T.altair_fork_spec
      ∷ T.fork_parameter_new (T.version (2 ∷ 0 ∷ 0 ∷ 1 ∷ [])) 0 T.bellatrix_fork_spec
      ∷ T.fork_parameter_new (T.version (3 ∷ 0 ∷ 0 ∷ 1 ∷ [])) 0 T.capella_fork_spec
      ∷ T.fork_parameter_new (T.version (4 ∷ 0 ∷ 0 ∷ 1 ∷ [])) 0 T.deneb_fork_spec
      ∷ []

  -- The struct of `create_test_client_state`.
  abbrev pub test_client_state :
      (root : H256) → ForkParameters → (commitments_slot : H256) → Fraction → ClientState
  test_client_state root fork_parameters commitments_slot trust_level = record {
    genesis_validators_root = root;
    min_sync_committee_participants = 1;
    genesis_time = 1;
    fork_parameters = fork_parameters;
    seconds_per_slot = T.preset_seconds_per_slot;
    slots_per_epoch = T.preset_slots_per_epoch;
    epochs_per_sync_committee_period = T.preset_epochs_per_sync_committee_period;
    ibc_address = T.address test_address_bytes;
    ibc_commitments_slot = commitments_slot;
    trust_level = trust_level;
    trusting_period = record { secs = 60 * 60 * 27; subsec_nanos = 0 };
    max_clock_drift = record { secs = 60; subsec_nanos = 0 };
    latest_execution_block_number = 1;
    frozen_height = none;
    consensus_verifier = consensus_verifier_default;
    execution_verifier = execution_verifier_default;
  }

  -- `create_test_client_state`
  unfoldable pub create_test_client_state : TestRun ClientState
  unfolding four_forks
  create_test_client_state = do
    root ← unwrap (h256_from_slice (replicate 32 1))
    fork_parameters ← expect (T.fork_parameters_new (T.version (0 ∷ 0 ∷ 0 ∷ 1 ∷ [])) four_forks)
    commitments_slot ← unwrap (h256_from_slice (replicate 32 2))
    trust_level ← expect (fraction_new 2 3)
    ok (test_client_state root fork_parameters commitments_slot trust_level)
