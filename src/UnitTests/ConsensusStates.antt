-- ===== src/UnitTests/ConsensusStates.antt =====
-- light-client/src/consensus_state.rs, module `tests`: the consensus state that the tests use, and the
-- tests.
pub mod Made
pub mod Pass
use native.Mathlib.Decide.{ℕ_discrete}
use ethereum_elc.Base.{
  ℕ, String, Bool, true, false, str_eq, List, [], ◌∷◌, ok, ◌>>=◌, ◌>>◌, unwrap, expect,
}
use ethereum_elc.External.{Crates}
use ethereum_elc.External.Proto.{IbcAny}
use ethereum_elc.Errors.{
  Error, uninitialized_consensus_state_field, unknown_consensus_state_type,
  invalid_raw_consensus_state,
}
use ethereum_elc.Raw.{RawConsensusState}
use ethereum_elc.ConsensusState.{ConsensusState, default_consensus_state, validate_consensus_state}
use ethereum_elc.ConsensusState.Codec.{
  consensus_state_to_any, consensus_state_from_any, consensus_state_to_ibc,
  consensus_state_from_ibc, consensus_state_into, consensus_state_try_from,
  ethereum_consensus_state_type_url,
}
use ethereum_elc.Client.Membership.{consensus_state_impl}
use ethereum_elc.Services.{Services, EthConsensusState}
use ethereum_elc.UnitTests.{
  TestRun, assert, assert_eq, assert_ok, assert_err, unwrap_ok, unwrap_err, replicate, for_each,
}
use ethereum_elc.UnitTests.States.{consensus_state_dec, create_test_consensus_state}
use ethereum_elc.UnitTests.Fixtures.{test_pubkey_bytes}

module _ ⦃C : Crates⦄ where
  open C use {
    Time, PublicKey, H256, h256_from_slice, h256_dec, h256_default, public_key_try_from,
    public_key_dec, public_key_default, time_from_nanos, time_dec, as_unix_timestamp_nanos, Any,
  }

  -- The patterns of `matches!`.
  abbrev pub is_uninitialized_field : String → Error → Bool
  is_uninitialized_field name (uninitialized_consensus_state_field field) = str_eq field name
  is_uninitialized_field name _ = false

  abbrev pub is_unknown_consensus_state_type : String → Error → Bool
  is_unknown_consensus_state_type expected (unknown_consensus_state_type url) = str_eq url expected
  is_unknown_consensus_state_type expected _ = false

  abbrev pub is_invalid_raw_consensus_state : Error → Bool
  is_invalid_raw_consensus_state (invalid_raw_consensus_state reason) = true
  is_invalid_raw_consensus_state _ = false

  unfoldable pub test_consensus_state_default : TestRun (Unit {0})
  test_consensus_state_default = do
    state ← default_consensus_state
    assert_eq ℕ_discrete state.slot 0
    assert_eq h256_dec state.storage_root h256_default
    assert_eq ℕ_discrete (as_unix_timestamp_nanos state.timestamp) 0
    assert_eq public_key_dec state.current_sync_committee public_key_default
    assert_eq public_key_dec state.next_sync_committee public_key_default

  unfoldable pub test_consensus_state_validate_default_fails : TestRun (Unit {0})
  test_consensus_state_validate_default_fails = do
    state ← default_consensus_state
    let result = validate_consensus_state state
    assert_err result
    e ← unwrap_err result
    assert (is_uninitialized_field "slot" e)

  unfoldable pub test_consensus_state_validate_success : TestRun (Unit {0})
  test_consensus_state_validate_success = do
    state ← create_test_consensus_state
    assert_ok (validate_consensus_state state)

  -- The state of the four tests of a missing field, and the field that is reported.
  abbrev assert_missing :
      (name : String) (slot nanos : ℕ) (current next : PublicKey) → TestRun (Unit {0})
  assert_missing name slot nanos current next = do
    root ← unwrap (h256_from_slice (replicate 32 1))
    timestamp ← expect (time_from_nanos nanos)
    let state : ConsensusState = record {
      slot = slot;
      storage_root = root;
      timestamp = timestamp;
      current_sync_committee = current;
      next_sync_committee = next;
    }
    e ← unwrap_err (validate_consensus_state state)
    assert (is_uninitialized_field name e)

  unfoldable pub test_consensus_state_validate_missing_slot : TestRun (Unit {0})
  test_consensus_state_validate_missing_slot =
      assert_missing "slot" 0 1000000000 public_key_default public_key_default

  unfoldable pub test_consensus_state_validate_missing_timestamp : TestRun (Unit {0})
  test_consensus_state_validate_missing_timestamp =
      assert_missing "timestamp" 100 0 public_key_default public_key_default

  unfoldable pub test_consensus_state_validate_missing_current_sync_committee : TestRun (Unit {0})
  test_consensus_state_validate_missing_current_sync_committee =
      assert_missing "current_sync_committee" 100 1000000000 public_key_default public_key_default

  unfoldable pub test_consensus_state_validate_missing_next_sync_committee : TestRun (Unit {0})
  test_consensus_state_validate_missing_next_sync_committee = do
    pubkey ← expect (public_key_try_from test_pubkey_bytes)
    assert_missing "next_sync_committee" 100 1000000000 pubkey public_key_default

  unfoldable pub test_consensus_state_storage_root : TestRun (Unit {0})
  test_consensus_state_storage_root = do
    state ← create_test_consensus_state
    assert_eq h256_dec (EthConsensusState.storage_root consensus_state_impl state)
        state.storage_root

  unfoldable pub test_timestamp_to_proto_and_back : TestRun (Unit {0})
  test_timestamp_to_proto_and_back = do
    original ← create_test_consensus_state
    converted ← unwrap_ok (consensus_state_try_from (consensus_state_into original))
    assert_eq time_dec original.timestamp converted.timestamp

  -- `matches!(ConsensusState::try_from(raw), Err(Error::InvalidRawConsensusState { .. }))`
  abbrev pub assert_invalid : RawConsensusState → TestRun (Unit {0})
  assert_invalid raw = do
    e ← unwrap_err (consensus_state_try_from raw)
    assert (is_invalid_raw_consensus_state e)

  unfoldable pub test_consensus_state_try_from_invalid_storage_root_length : TestRun (Unit {0})
  test_consensus_state_try_from_invalid_storage_root_length =
      for_each (0 ∷ 31 ∷ 33 ∷ 64 ∷ []) λ bad_len. do
        state ← create_test_consensus_state
        assert_invalid (record (consensus_state_into state) { storage_root = replicate bad_len 1 })

  module _ ⦃S : Services⦄ where
    unfoldable pub test_consensus_state_proto_conversion : TestRun (Unit {0})
    test_consensus_state_proto_conversion = do
      state ← create_test_consensus_state
      any ← unwrap_ok (consensus_state_to_any state)
      state2 ← unwrap_ok (consensus_state_from_any any)
      assert_eq consensus_state_dec state state2

    unfoldable pub test_consensus_state_proto_conversion_ibc_any : TestRun (Unit {0})
    test_consensus_state_proto_conversion_ibc_any = do
      state ← create_test_consensus_state
      any ← unwrap_ok (consensus_state_to_ibc state)
      assert (str_eq any.type_url ethereum_consensus_state_type_url)
      state2 ← unwrap_ok (consensus_state_from_ibc any)
      assert_eq consensus_state_dec state state2

    unfoldable pub test_consensus_state_from_any_unknown_type : TestRun (Unit {0})
    test_consensus_state_from_any_unknown_type = do
      let result = consensus_state_from_ibc (record { type_url = "/unknown.type"; value = [] })
      assert_err result
      e ← unwrap_err result
      assert (is_unknown_consensus_state_type "/unknown.type" e)
