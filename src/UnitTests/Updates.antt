-- ===== src/UnitTests/Updates.antt =====
-- light-client/src/client_state.rs, module `integration_tests`: the test of an accepted header. The
-- states, the time, the header and the two roots of the account proof are any values.
use native.Mathlib.Decide.{ℕ_discrete}
use ethereum_elc.Base.{◌≡◌, ◌≢◌, ◌≤◌, refl, false, not, decided, ok, ◌>>=◌, ◌>>◌, arith}
use ethereum_elc.External.{Crates}
use ethereum_elc.ConsensusState.{ConsensusState}
use ethereum_elc.ClientState.{ClientState}
use ethereum_elc.ClientState.Update.{check_header_and_update_state}
use ethereum_elc.ClientState.Update.Accepted.{HeaderAccepted, check_header-HeaderAccepted}
use ethereum_elc.Header.{Header}
use ethereum_elc.Services.{Services}
use ethereum_elc.UnitTests.{TestRun, assert, assert_eq, assert_ok, unwrap_ok, decided_self}

-- `assert_ne!`
abbrev assert_ne : {A : Type 0} → Discrete A → A → A → TestRun (Unit {0})
assert_ne dec a b = assert (not (decided (dec a b)))

different : {A : Type 0} (dec : Discrete A) (a b : A) → a ≢ b → decided (dec a b) ≡ false
different dec a b apart = elim (dec a b) as (λ d. decided d ≡ false) [
  | yes p ↦ absurd (apart p)
  | no n ↦ refl
]

module _ ⦃C : Crates⦄ ⦃S : Services⦄ (client : ClientState) (consensus : ConsensusState)
    (now : C.Time) (header : Header) (state_root storage_root : C.H256) where
  open C use {
    h256_dec, block_number, finalized_beacon_header_slot, finalized_header_slot,
    account_storage_root,
  }

  unfoldable pub test_check_header_and_update_state_success : TestRun (Unit {0})
  test_check_header_and_update_state_success = do
    let finalized_slot = finalized_beacon_header_slot header.consensus_update
    let result = check_header_and_update_state client now consensus header
    assert_ok result
    (new_client_state, new_consensus_state) ← unwrap_ok result
    assert_eq ℕ_discrete new_client_state.latest_execution_block_number 100
    assert_eq h256_dec new_consensus_state.storage_root storage_root
    assert_ne h256_dec new_consensus_state.storage_root state_root
    assert_eq ℕ_discrete new_consensus_state.slot finalized_slot
    assert_ne ℕ_discrete new_consensus_state.slot consensus.slot

  pub check_header_success_passes :
      (t : ClientState) (after : ConsensusState)
      → HeaderAccepted client now consensus header t after
      → client.latest_execution_block_number ≤ 100
      → block_number header.execution_update ≡ 100
      → account_storage_root header.account_update ≡ storage_root
      → storage_root ≢ state_root
      → finalized_header_slot header.consensus_update
        ≡ finalized_beacon_header_slot header.consensus_update
      → finalized_beacon_header_slot header.consensus_update ≢ consensus.slot
      → test_check_header_and_update_state_success ≡ ok tt
  unfolding test_check_header_and_update_state_success
  check_header_success_passes t after a below block root roots_differ slot advanced =
      let latest : t.latest_execution_block_number ≡ 100 = rw a.new_client_state (ground arith) in
      let root' : after.storage_root ≡ storage_root = rw a.new_consensus_state root in
      let slot' : after.slot ≡ finalized_beacon_header_slot header.consensus_update =
        rw a.new_consensus_state slot in
      rw
        (
          (check_header-HeaderAccepted _ _ _ _ _ _).1 a,
          latest,
          root',
          slot',
          decided_self ℕ_discrete 100,
          decided_self h256_dec storage_root,
          different h256_dec storage_root state_root roots_differ,
          decided_self ℕ_discrete (finalized_beacon_header_slot header.consensus_update),
          different ℕ_discrete (finalized_beacon_header_slot header.consensus_update) consensus.slot
              advanced,
        )
        refl
