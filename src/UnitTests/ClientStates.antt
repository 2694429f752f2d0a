-- ===== src/UnitTests/ClientStates.antt =====
-- light-client/src/client_state.rs, module `tests`: the client state that the tests use, and the tests.
pub mod Made
pub mod Methods
pub mod Decoded
pub mod Pass
use native.Mathlib.Decide.{ℕ_discrete}
use text.Mathlib.Text.{◌==◌ as same_text}
use ethereum_elc.Base.{
  ℕ, ◌*◌, String, Bool, true, false, not, decided, str_eq, Option, none, some, List, [], ◌∷◌,
  Outcome, ok, ◌>>=◌, ◌>>◌, unwrap, expect, ◌==◌, length,
}
use ethereum_elc.Std.{Duration}
use ethereum_elc.External.{Crates}
use ethereum_elc.External.Proto.{IbcAny}
use ethereum_elc.Errors.{
  Error, uninitialized_client_state_field, missing_bellatrix_fork, unknown_client_state_type,
  invalid_raw_client_state,
}
use ethereum_elc.Raw.{RawClientState}
use ethereum_elc.ClientState.{
  ClientState, default_client_state, validate_client_state, is_frozen, with_frozen_height,
  latest_height, canonicalize, build_context, ethereum_client_revision_number,
  ethereum_client_state_type_url,
}
use ethereum_elc.ClientState.Codec.{
  client_state_to_any, client_state_from_any, client_state_to_ibc, client_state_from_ibc,
  client_state_into, client_state_try_from,
}
use ethereum_elc.Client.Membership.{client_state_impl}
use ethereum_elc.Services.{Services, EthClientState}
use ethereum_elc.UnitTests.{
  TestRun, assert, assert_eq, assert_ok, assert_err, unwrap_ok, unwrap_err, replicate, for_each,
}
use ethereum_elc.UnitTests.States.{client_state_dec, frozen_height_dec, create_test_client_state}
use ethereum_elc.UnitTests.Fixtures.{TestCrates, test_address_bytes}

module _ ⦃C : Crates⦄ where
  -- The patterns of `matches!`.
  abbrev pub is_uninitialized_field : String → Error → Bool
  is_uninitialized_field name (uninitialized_client_state_field field) = str_eq field name
  is_uninitialized_field name _ = false

  abbrev pub is_missing_bellatrix_fork : Error → Bool
  is_missing_bellatrix_fork missing_bellatrix_fork = true
  is_missing_bellatrix_fork _ = false

  abbrev pub is_unknown_client_state_type : String → Error → Bool
  is_unknown_client_state_type expected (unknown_client_state_type url) = str_eq url expected
  is_unknown_client_state_type expected _ = false

  abbrev pub is_invalid_raw_client_state : Error → Bool
  is_invalid_raw_client_state (invalid_raw_client_state reason) = true
  is_invalid_raw_client_state _ = false

module _ ⦃C : Crates⦄ (T : TestCrates) where
  open C use {
    H256, Height, Version, ForkParameters, Fraction, h256_from_slice, h256_dec, h256_default,
    fraction_new, fork_parameters_dec, address_dec, fraction_dec, height_new, revision_number,
    revision_height, lc_revision_number, lc_revision_height, consensus_verifier_default,
    execution_verifier_default, time_from_nanos, Any,
  }

  unfoldable pub test_client_state_default : TestRun (Unit {0})
  test_client_state_default = do
    let state = default_client_state
    assert_eq h256_dec state.genesis_validators_root h256_default
    assert_eq ℕ_discrete state.min_sync_committee_participants 0
    assert_eq ℕ_discrete state.genesis_time 0
    assert_eq (frozen_height_dec T) state.frozen_height none
    assert (not (is_frozen state))

  unfoldable pub test_client_state_validate_default_fails : TestRun (Unit {0})
  test_client_state_validate_default_fails = do
    let result = validate_client_state default_client_state
    assert_err result
    e ← unwrap_err result
    assert (is_uninitialized_field "genesis_validators_root" e)

  unfoldable pub test_client_state_validate_success : TestRun (Unit {0})
  test_client_state_validate_success = do
    state ← create_test_client_state T
    assert_ok (validate_client_state state)

  unfoldable pub test_client_state_is_frozen : TestRun (Unit {0})
  test_client_state_is_frozen = do
    let state = default_client_state
    assert (not (is_frozen state))
    let frozen_state = with_frozen_height state (height_new 0 100)
    assert (is_frozen frozen_state)
    assert_eq (frozen_height_dec T) frozen_state.frozen_height (some (height_new 0 100))

  unfoldable pub test_client_state_latest_height : TestRun (Unit {0})
  test_client_state_latest_height = do
    let height =
        latest_height (record default_client_state { latest_execution_block_number = 12345 })
    assert_eq ℕ_discrete (lc_revision_number height) ethereum_client_revision_number
    assert_eq ℕ_discrete (lc_revision_height height) 12345

  unfoldable pub test_client_state_canonicalize : TestRun (Unit {0})
  test_client_state_canonicalize = do
    let canonicalized = canonicalize (record default_client_state {
      latest_execution_block_number = 12345;
      frozen_height = some (height_new 0 100);
    })
    assert_eq ℕ_discrete canonicalized.latest_execution_block_number 0
    assert_eq (frozen_height_dec T) canonicalized.frozen_height none

  unfoldable pub test_client_state_ibc_commitments_slot : TestRun (Unit {0})
  test_client_state_ibc_commitments_slot = do
    slot ← unwrap (h256_from_slice (replicate 32 0xab))
    let state = record default_client_state { ibc_commitments_slot = slot }
    assert_eq h256_dec (EthClientState.ibc_commitments_slot client_state_impl state) slot

  unfoldable pub test_ethereum_client_revision_number : TestRun (Unit {0})
  test_ethereum_client_revision_number = assert_eq ℕ_discrete ethereum_client_revision_number 0

  unfoldable pub test_client_state_validate_missing_min_sync_committee_participants :
      TestRun (Unit {0})
  test_client_state_validate_missing_min_sync_committee_participants = do
    root ← unwrap (h256_from_slice (replicate 32 1))
    let state = record default_client_state {
      genesis_validators_root = root;
      min_sync_committee_participants = 0;
    }
    e ← unwrap_err (validate_client_state state)
    assert (is_uninitialized_field "min_sync_committee_participants" e)

  unfoldable pub test_client_state_validate_missing_genesis_time : TestRun (Unit {0})
  test_client_state_validate_missing_genesis_time = do
    root ← unwrap (h256_from_slice (replicate 32 1))
    let state = record default_client_state {
      genesis_validators_root = root;
      min_sync_committee_participants = 1;
      genesis_time = 0;
    }
    e ← unwrap_err (validate_client_state state)
    assert (is_uninitialized_field "genesis_time" e)

  unfoldable pub test_client_state_validate_missing_bellatrix_fork : TestRun (Unit {0})
  test_client_state_validate_missing_bellatrix_fork = do
    root ← unwrap (h256_from_slice (replicate 32 1))
    fork_parameters ← expect (
        T.fork_parameters_new (T.version (0 ∷ 0 ∷ 0 ∷ 1 ∷ []))
          (T.fork_parameter_new (T.version (1 ∷ 0 ∷ 0 ∷ 1 ∷ [])) 0 T.altair_fork_spec ∷ []))
    let state = record default_client_state {
      genesis_validators_root = root;
      min_sync_committee_participants = 1;
      genesis_time = 1;
      fork_parameters = fork_parameters;
      seconds_per_slot = T.preset_seconds_per_slot;
      slots_per_epoch = T.preset_slots_per_epoch;
      epochs_per_sync_committee_period = T.preset_epochs_per_sync_committee_period;
    }
    e ← unwrap_err (validate_client_state state)
    assert (is_missing_bellatrix_fork e)

  unfoldable pub test_client_state_build_context : TestRun (Unit {0})
  test_client_state_build_context = do
    state ← create_test_client_state T
    now ← expect (time_from_nanos 1000000000000000000)
    let context = build_context state now
    ok tt

  unfoldable pub test_client_state_with_frozen_height : TestRun (Unit {0})
  test_client_state_with_frozen_height = do
    state ← create_test_client_state T
    assert (not (is_frozen state))
    let frozen = with_frozen_height state (height_new 0 100)
    assert (is_frozen frozen)
    assert_eq (frozen_height_dec T) frozen.frozen_height (some (height_new 0 100))

  -- `matches!(TestClientState::try_from(raw), Err(Error::InvalidRawClientState { .. }))`
  abbrev pub assert_invalid : RawClientState → TestRun (Unit {0})
  assert_invalid raw = do
    e ← unwrap_err (client_state_try_from raw)
    assert (is_invalid_raw_client_state e)

  -- `for bad_len in [0, 31, 33, 64]`, with the raw state changed by each.
  abbrev assert_rejected : (ℕ → RawClientState → RawClientState) → TestRun (Unit {0})
  assert_rejected change = for_each (0 ∷ 31 ∷ 33 ∷ 64 ∷ []) λ bad_len. do
    state ← create_test_client_state T
    assert_invalid (change bad_len (client_state_into state))

  unfoldable pub test_client_state_try_from_invalid_genesis_validators_root_length :
      TestRun (Unit {0})
  test_client_state_try_from_invalid_genesis_validators_root_length =
      assert_rejected λ bad_len raw. record raw { genesis_validators_root = replicate bad_len 1 }

  unfoldable pub test_client_state_try_from_invalid_ibc_commitments_slot_length : TestRun (Unit {0})
  test_client_state_try_from_invalid_ibc_commitments_slot_length =
      assert_rejected λ bad_len raw. record raw { ibc_commitments_slot = replicate bad_len 1 }

  module _ ⦃S : Services⦄ where
    unfoldable pub test_client_state_proto_conversion : TestRun (Unit {0})
    test_client_state_proto_conversion = do
      state ← create_test_client_state T
      any ← unwrap_ok (client_state_to_any state)
      state2 ← unwrap_ok (client_state_from_any any)
      assert_eq (client_state_dec T) state state2

    unfoldable pub test_client_state_proto_conversion_ibc_any : TestRun (Unit {0})
    test_client_state_proto_conversion_ibc_any = do
      state ← create_test_client_state T
      any ← unwrap_ok (client_state_to_ibc state)
      assert (str_eq any.type_url ethereum_client_state_type_url)
      state2 ← unwrap_ok (client_state_from_ibc any)
      assert_eq (client_state_dec T) state state2

    unfoldable pub test_client_state_from_any_unknown_type : TestRun (Unit {0})
    test_client_state_from_any_unknown_type = do
      let result = client_state_from_ibc (record { type_url = "/unknown.type"; value = [] })
      assert_err result
      e ← unwrap_err result
      assert (is_unknown_client_state_type "/unknown.type" e)
