-- ===== src/UnitTests/Evidence.antt =====
-- light-client/src/client_state.rs, module `integration_tests`: the tests of misbehaviour. The states, the
-- time, the committee and the updates that a test fixture makes are any values.
pub mod Pass
use ethereum_elc.Base.{
  ℕ, ◌≡◌, ◌≢◌, refl, String, Bool, true, false, not, str_eq, eq_iff, Option, none, some, List, [],
  ◌∷◌, Outcome, panic, ok, err, Result, success, failure, ◌>>=◌, ◌>>◌, expect, arith,
}
use ethereum_elc.External.{Crates}
use ethereum_elc.Errors.{Error, unexpected_client_id_in_misbehaviour, ethereum_light_client_types}
use ethereum_elc.ConsensusState.{ConsensusState}
use ethereum_elc.ClientState.{ClientState, is_frozen}
use ethereum_elc.ClientState.Update.{check_misbehaviour_and_update_state}
use ethereum_elc.Misbehaviour.{Misbehaviour, finalized_header}
use ethereum_elc.Services.{Services}
use ethereum_elc.UnitTests.{
  TestRun, assert, assert_eq, assert_ok, assert_err, unwrap_ok, unwrap_err, run_tests,
}

module _ ⦃C : Crates⦄ ⦃S : Services⦄ where
  open C use {
    Height, Time, ClientId, TrustedSyncCommittee, ConsensusUpdate, client_id_from_str,
    client_id_as_str, height_new,
  }

  -- `match result.unwrap_err()`
  unfoldable pub assert_mismatch : Error → TestRun (Unit {0})
  assert_mismatch (unexpected_client_id_in_misbehaviour expected actual) = do
    assert (str_eq (client_id_as_str expected) "ethereum-0")
    assert (str_eq (client_id_as_str actual) "ethereum-999")
  assert_mismatch e = panic

  -- The pattern of `matches!`.
  abbrev pub is_types_error : Error → Bool
  is_types_error (ethereum_light_client_types e) = true
  is_types_error _ = false

  -- The struct of the tests.
  abbrev pub evidence_of :
      TrustedSyncCommittee → (update_1 update_2 : ConsensusUpdate) → ClientId → Misbehaviour
  evidence_of committee update_1 update_2 client_id = record {
    client_id = client_id;
    trusted_sync_committee = committee;
    evidence = finalized_header update_1 update_2;
  }

  module _ (client : ClientState) (consensus : ConsensusState) (now : Time)
      (committee : TrustedSyncCommittee) (update_1 update_2 : ConsensusUpdate) where
    unfoldable pub test_check_misbehaviour_client_id_mismatch : TestRun (Unit {0})
    test_check_misbehaviour_client_id_mismatch = do
      other_client_id ← expect (client_id_from_str "ethereum-999")
      expected_client_id ← expect (client_id_from_str "ethereum-0")
      let result =
          check_misbehaviour_and_update_state client now expected_client_id consensus
            (evidence_of committee update_1 update_2 other_client_id)
      assert_err result
      e ← unwrap_err result
      assert_mismatch e

    unfoldable pub test_check_misbehaviour_and_update_state_success :
        Discrete (Option Height) → TestRun (Unit {0})
    test_check_misbehaviour_and_update_state_success frozen_height_dec = do
      client_id ← expect (client_id_from_str "ethereum-0")
      assert (not (is_frozen client))
      let result =
          check_misbehaviour_and_update_state client now client_id consensus
            (evidence_of committee update_1 update_2 client_id)
      assert_ok result
      frozen_client_state ← unwrap_ok result
      assert (is_frozen frozen_client_state)
      assert_eq frozen_height_dec frozen_client_state.frozen_height (some (height_new 0 50))

    unfoldable pub test_check_misbehaviour_trusting_period_expired : TestRun (Unit {0})
    test_check_misbehaviour_trusting_period_expired = do
      client_id ← expect (client_id_from_str "ethereum-0")
      let result =
          check_misbehaviour_and_update_state client now client_id consensus
            (evidence_of committee update_1 update_2 client_id)
      assert_err result
      e ← unwrap_err result
      assert (is_types_error e)
