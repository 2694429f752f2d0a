-- ===== src/UnitTests/StateIds.antt =====
-- light-client/src/state.rs, module `tests`: the tests, and that they pass.
use ethereum_elc.Base.{◌≡◌, refl, ◌∙◌, List, [], ◌∷◌, ok, ◌>>=◌}
use ethereum_elc.External.{Crates}
use ethereum_elc.Laws.{IsLawful}
use ethereum_elc.Services.{Services}
use ethereum_elc.StateId.{gen_state_id}
use ethereum_elc.Chain.Links.{gen_state_id_same}
use ethereum_elc.Chain.Written.{IsWritable, gen_state_id_writes}
use ethereum_elc.UnitTests.{TestRun, assert_eq, assert_ok, unwrap_ok, run_tests, decided_self}
use ethereum_elc.UnitTests.Fixtures.{TestCrates, IsFixture}
use ethereum_elc.UnitTests.States.{create_test_client_state, create_test_consensus_state}
use ethereum_elc.UnitTests.ClientStates.Made.{create_test_client_state-IsTestState}
use ethereum_elc.UnitTests.ConsensusStates.Made.{create_test_consensus_state-IsRepresentable}

module _ ⦃C : Crates⦄ ⦃S : Services⦄ (T : TestCrates) where
  open C use {state_id_dec}

  unfoldable pub test_gen_state_id : TestRun (Unit {0})
  test_gen_state_id = do
    client_state ← create_test_client_state T
    consensus_state ← create_test_consensus_state
    assert_ok (gen_state_id client_state consensus_state)

  unfoldable pub test_gen_state_id_deterministic : TestRun (Unit {0})
  test_gen_state_id_deterministic = do
    client_state1 ← create_test_client_state T
    consensus_state1 ← create_test_consensus_state
    state_id1 ← unwrap_ok (gen_state_id client_state1 consensus_state1)
    client_state2 ← create_test_client_state T
    consensus_state2 ← create_test_consensus_state
    state_id2 ← unwrap_ok (gen_state_id client_state2 consensus_state2)
    assert_eq state_id_dec state_id1 state_id2

  unfoldable pub test_gen_state_id_canonicalizes_client_state : TestRun (Unit {0})
  test_gen_state_id_canonicalizes_client_state = do
    client_state1 ← create_test_client_state T
    let client_state1 = record client_state1 { latest_execution_block_number = 100 }
    consensus_state1 ← create_test_consensus_state
    state_id1 ← unwrap_ok (gen_state_id client_state1 consensus_state1)
    client_state2 ← create_test_client_state T
    let client_state2 = record client_state2 { latest_execution_block_number = 200 }
    consensus_state2 ← create_test_consensus_state
    state_id2 ← unwrap_ok (gen_state_id client_state2 consensus_state2)
    assert_eq state_id_dec state_id1 state_id2

  pub state_id_tests : List (TestRun (Unit {0}))
  state_id_tests =
      test_gen_state_id ∷ test_gen_state_id_deterministic
      ∷ test_gen_state_id_canonicalizes_client_state ∷ []

  pub state_id_tests_pass : IsLawful → IsFixture T → IsWritable → run_tests state_id_tests ≡ ok tt
  unfolding state_id_tests test_gen_state_id test_gen_state_id_deterministic
      test_gen_state_id_canonicalizes_client_state
  state_id_tests_pass L F W =
      let (s, client_made, _) = create_test_client_state-IsTestState L T F in
      let (c, consensus_made, _, _) = create_test_consensus_state-IsRepresentable L T F in
      let (i, plain) = gen_state_id_writes W s c in
      let (j, low) = gen_state_id_writes W (record s { latest_execution_block_number = 100 }) c in
      let high =
        gen_state_id_same (record s { latest_execution_block_number = 200 })
          (record s { latest_execution_block_number = 100 }) c refl
        ∙ low in
      rw
        (
          client_made,
          consensus_made,
          plain,
          low,
          high,
          decided_self state_id_dec i,
          decided_self state_id_dec j,
        )
        refl
