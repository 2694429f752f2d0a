-- ===== src/UnitTests/Calls.antt =====
-- light-client/src/client.rs, module `tests`: the tests of the calls. The states, the header and the
-- evidence that a test fixture makes are any values, and so is the time of the call.
pub mod SetUp
pub mod Made
pub mod Answered
pub mod Submitted
pub mod Pass
use native.Mathlib.Decide.{ℕ_discrete}
use ethereum_elc.Base.{
  ℕ, String, not, str_eq, Option, some, List, [], ◌∷◌, Result, ok, ◌>>=◌, ◌>>◌, expect,
}
use ethereum_elc.External.{Crates}
use ethereum_elc.ConsensusState.{ConsensusState, default_consensus_state}
use ethereum_elc.ConsensusState.Codec.{consensus_state_to_any}
use ethereum_elc.ClientState.{
  ClientState, default_client_state, is_frozen, ethereum_client_revision_number,
}
use ethereum_elc.ClientState.Codec.{client_state_to_any, client_state_from_any}
use ethereum_elc.Header.{Header}
use ethereum_elc.Misbehaviour.{Misbehaviour}
use ethereum_elc.Services.{Services}
use ethereum_elc.Client.{ethereum_client_type, client_latest_height, create_client}
use ethereum_elc.Client.Update.{update_state, submit_misbehaviour}
use ethereum_elc.Client.Membership.{verify_membership, verify_non_membership}
use ethereum_elc.Registry.{LightClient, ethereum_light_client}
use ethereum_elc.UnitTests.{TestRun, assert, assert_eq, assert_ok, assert_err, unwrap_ok}
use ethereum_elc.UnitTests.MockHost.{
  StoreCrates, MockHostContext, mock_host_new, mock_reader, setup_client,
}

module _ ⦃C : Crates⦄ where
  open C use {Any, ClientId, Height, TypeError, height_new}

  -- What the tests of the calls use of `light_client`: two constructors and a derived equality.
  pub record CallCrates : Type 0 where
    pub client_id_new : String → ℕ → Result TypeError ClientId
    pub any_new : (type_url : String) → (value : List ℕ) → Any
    pub frozen_height_dec : Discrete (Option Height)

  -- `client_state.frozen_height = Some(Height::new(0, n))`
  unfoldable pub frozen_at : ClientState → ℕ → ClientState
  frozen_at client n = record client { frozen_height = some (height_new 0 n) }

module _ ⦃C : Crates⦄ ⦃S : Services⦄ (K : StoreCrates) (T : CallCrates) where
  open C use {Any, ClientId, Height, Time, height_new, revision_number, revision_height, unix_epoch}

  unfoldable pub test_client_type : TestRun (Unit {0})
  test_client_type = assert (str_eq ethereum_light_client.client_type ethereum_client_type)

  -- A mock host with the two states under a client's identifier.
  abbrev pub set_up :
      Time → ClientId → ClientState → ConsensusState → Height → TestRun (MockHostContext K)
  set_up now client_id client_state consensus_state height = do
    any_client_state ← unwrap_ok (client_state_to_any client_state)
    any_consensus_state ← unwrap_ok (consensus_state_to_any consensus_state)
    setup_client K client_id any_client_state any_consensus_state height (mock_host_new K now)

  unfoldable pub test_latest_height_client_not_found : TestRun (Unit {0})
  test_latest_height_client_not_found = do
    client_id ← expect (T.client_id_new ethereum_client_type 999)
    assert_err (client_latest_height (mock_reader K (mock_host_new K unix_epoch)) client_id)

  unfoldable pub test_create_client_invalid_client_state_fails : TestRun (Unit {0})
  test_create_client_invalid_client_state_fails = do
    any_client_state ← unwrap_ok (client_state_to_any default_client_state)
    consensus_state ← default_consensus_state
    any_consensus_state ← unwrap_ok (consensus_state_to_any consensus_state)
    assert_err (create_client any_client_state any_consensus_state)

  unfoldable pub test_create_client_unknown_client_state_type_fails : TestRun (Unit {0})
  test_create_client_unknown_client_state_type_fails = do
    consensus_state ← default_consensus_state
    any_consensus_state ← unwrap_ok (consensus_state_to_any consensus_state)
    assert_err (create_client (T.any_new "/unknown.type" []) any_consensus_state)

  module _ (client : ClientState) (consensus : ConsensusState) where
    unfoldable pub test_latest_height : TestRun (Unit {0})
    test_latest_height = do
      client_id ← expect (T.client_id_new ethereum_client_type 0)
      mock_ctx ←
          set_up unix_epoch client_id (record client { latest_execution_block_number = 12345 })
            consensus (height_new 0 1)
      height ← unwrap_ok (client_latest_height (mock_reader K mock_ctx) client_id)
      assert_eq ℕ_discrete (revision_number height) ethereum_client_revision_number
      assert_eq ℕ_discrete (revision_height height) 12345

    unfoldable pub test_create_client_success : TestRun (Unit {0})
    test_create_client_success = do
      any_client_state ← unwrap_ok (client_state_to_any client)
      any_consensus_state ← unwrap_ok (consensus_state_to_any consensus)
      let result = create_client any_client_state any_consensus_state
      assert_ok result
      create_result ← unwrap_ok result
      assert_eq ℕ_discrete (revision_height create_result.height)
          client.latest_execution_block_number
      assert (not create_result.prove)

    unfoldable pub test_create_client_frozen_client_fails : TestRun (Unit {0})
    test_create_client_frozen_client_fails = do
      any_client_state ← unwrap_ok (client_state_to_any (frozen_at client 100))
      any_consensus_state ← unwrap_ok (consensus_state_to_any consensus)
      assert_err (create_client any_client_state any_consensus_state)

    unfoldable pub test_create_client_invalid_consensus_state_fails : TestRun (Unit {0})
    test_create_client_invalid_consensus_state_fails = do
      any_client_state ← unwrap_ok (client_state_to_any client)
      assert_err (create_client any_client_state (T.any_new "/unknown.consensus" []))

    unfoldable pub test_verify_membership_frozen_client_fails : TestRun (Unit {0})
    test_verify_membership_frozen_client_fails = do
      client_id ← expect (T.client_id_new ethereum_client_type 0)
      let proof_height = height_new 0 1
      mock_ctx ← set_up unix_epoch client_id (frozen_at client 50) consensus proof_height
      assert_err (
          verify_membership (mock_reader K mock_ctx) client_id [] "some/path" (1 ∷ 2 ∷ 3 ∷ [])
            proof_height [])

    unfoldable pub test_verify_non_membership_frozen_client_fails : TestRun (Unit {0})
    test_verify_non_membership_frozen_client_fails = do
      client_id ← expect (T.client_id_new ethereum_client_type 0)
      let proof_height = height_new 0 1
      mock_ctx ← set_up unix_epoch client_id (frozen_at client 50) consensus proof_height
      assert_err
          (verify_non_membership (mock_reader K mock_ctx) client_id [] "some/path" proof_height [])

    module _ (now : Time) (header : Header) where
      unfoldable pub test_update_state_frozen_client_fails : TestRun (Unit {0})
      test_update_state_frozen_client_fails = do
        client_id ← expect (T.client_id_new ethereum_client_type 0)
        mock_ctx ← set_up now client_id (frozen_at client 50) consensus (height_new 0 1)
        assert_err (update_state (mock_reader K mock_ctx) client_id header)

      unfoldable pub test_update_state_success : TestRun (Unit {0})
      test_update_state_success = do
        client_id ← expect (T.client_id_new ethereum_client_type 0)
        mock_ctx ← set_up now client_id client consensus (height_new 0 1)
        let result = update_state (mock_reader K mock_ctx) client_id header
        assert_ok result
        update_data ← unwrap_ok result
        assert_eq ℕ_discrete (revision_height update_data.height) 100
        assert update_data.prove

    module _ (now : Time) (evidence : ClientId → Misbehaviour) where
      unfoldable pub test_submit_misbehaviour_frozen_client_fails : TestRun (Unit {0})
      test_submit_misbehaviour_frozen_client_fails = do
        client_id ← expect (T.client_id_new ethereum_client_type 0)
        mock_ctx ← set_up now client_id (frozen_at client 50) consensus (height_new 0 1)
        assert_err (
            submit_misbehaviour (mock_reader K mock_ctx) client_id (T.any_new "dummy" [])
              (evidence client_id))

      unfoldable pub test_submit_misbehaviour_success : TestRun (Unit {0})
      test_submit_misbehaviour_success = do
        client_id ← expect (T.client_id_new ethereum_client_type 0)
        assert (not (is_frozen client))
        mock_ctx ← set_up now client_id client consensus (height_new 0 1)
        let result =
            submit_misbehaviour (mock_reader K mock_ctx) client_id (T.any_new "dummy" [])
              (evidence client_id)
        assert_ok result
        misbehaviour_data ← unwrap_ok result
        new_client_state ← unwrap_ok (client_state_from_any misbehaviour_data.new_any_client_state)
        assert (is_frozen new_client_state)
        assert_eq T.frozen_height_dec new_client_state.frozen_height (some (height_new 0 1))
