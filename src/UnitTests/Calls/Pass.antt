-- ===== src/UnitTests/Calls/Pass.antt =====
-- light-client/src/client.rs, module `tests`: the tests of the calls, all of those that are modelled.
use ethereum_elc.Base.{◌≡◌, refl, none, List, [], ◌∷◌, ok}
use ethereum_elc.External.{Crates}
use ethereum_elc.ConsensusState.{ConsensusState, validate_consensus_state}
use ethereum_elc.ClientState.{ClientState}
use ethereum_elc.ClientState.Checks.{IsInitialized}
use ethereum_elc.ClientState.Update.Accepted.{HeaderAccepted, MisbehaviourAccepted}
use ethereum_elc.Header.{Header}
use ethereum_elc.Misbehaviour.{Misbehaviour}
use ethereum_elc.Misc.{to_lcp_height}
use ethereum_elc.Laws.{IsLawful, IsCodec}
use ethereum_elc.Services.{Services}
use ethereum_elc.Chain.Written.{IsWritable}
use ethereum_elc.Client.Update.Processed.{trusted_height_of}
use ethereum_elc.UnitTests.{TestRun, run_tests}
use ethereum_elc.UnitTests.MockHost.{StoreCrates}
use ethereum_elc.UnitTests.MockHost.Reads.{IsKeeper}
use ethereum_elc.UnitTests.Calls
use ethereum_elc.UnitTests.Calls.{CallCrates}
use ethereum_elc.UnitTests.Calls.SetUp.{IsCallFixture, IsStatePair}
use ethereum_elc.UnitTests.Calls.Made
use ethereum_elc.UnitTests.Calls.Answered
use ethereum_elc.UnitTests.Calls.Submitted

module _ ⦃C : Crates⦄ ⦃S : Services⦄ where
  open C use {ClientId, Time, height_new, block_number, trusted_height}

  -- What a fixture makes: states that can be written and pass their checks, a header at block 100
  -- and evidence that trust height 0-1 and are accepted at a time.
  pub record IsScenario (client : ClientState) (consensus : ConsensusState) (now : Time)
      (header : Header) (evidence : ClientId → Misbehaviour) : Type 0 where
    pub new_client : ClientState
    pub new_consensus : ConsensusState
    pub frozen_client : ClientId → ClientState
    pub representable : IsStatePair client consensus
    pub initialized : IsInitialized client
    pub unfrozen : client.frozen_height ≡ none
    pub consensus_valid : validate_consensus_state consensus ≡ ok tt
    pub header_trusts : trusted_height_of header ≡ height_new 0 1
    pub header_accepted : HeaderAccepted client now consensus header new_client new_consensus
    pub header_block : block_number header.execution_update ≡ 100
    pub evidence_trusts :
        (i : ClientId)
        → to_lcp_height (trusted_height (evidence i).trusted_sync_committee) ≡ height_new 0 1
    pub evidence_accepted :
        (i : ClientId) → MisbehaviourAccepted client now i consensus (evidence i) (frozen_client i)

module _ ⦃C : Crates⦄ ⦃S : Services⦄ (K : StoreCrates) (T : CallCrates) where
  open C use {ClientId, Time}

  pub call_tests :
      ClientState
      → ConsensusState
      → Time
      → Header
      → (ClientId → Misbehaviour)
      → List (TestRun (Unit {0}))
  call_tests client consensus now header evidence =
      Calls.test_client_type K T
      ∷ Calls.test_latest_height K T client consensus
      ∷ Calls.test_latest_height_client_not_found K T
      ∷ Calls.test_create_client_success K T client consensus
      ∷ Calls.test_create_client_frozen_client_fails K T client consensus
      ∷ Calls.test_create_client_invalid_client_state_fails K T
      ∷ Calls.test_create_client_unknown_client_state_type_fails K T
      ∷ Calls.test_create_client_invalid_consensus_state_fails K T client consensus
      ∷ Calls.test_verify_membership_frozen_client_fails K T client consensus
      ∷ Calls.test_verify_non_membership_frozen_client_fails K T client consensus
      ∷ Calls.test_update_state_frozen_client_fails K T client consensus now header
      ∷ Calls.test_update_state_success K T client consensus now header
      ∷ Calls.test_submit_misbehaviour_frozen_client_fails K T client consensus now evidence
      ∷ Calls.test_submit_misbehaviour_success K T client consensus now evidence
      ∷ []

  -- Fourteen unit tests of client.rs pass over the mock host: the calls read the states back that
  -- setup_client stored, refuse a frozen client and states of unknown types, accept the header
  -- with its block number as height, and freeze the client on the evidence. This is for any states
  -- that can be written and pass their checks, any header at block 100 and any evidence that trust
  -- the stored height and pass every check, and for all crates that keep the assumptions of Laws,
  -- can write every state, and whose keeper finds in any store what it put there.
  pub call_tests_pass :
      IsLawful
      → IsCodec
      → IsWritable
      → IsKeeper K
      → IsCallFixture T
      → (client : ClientState) (consensus : ConsensusState) (now : Time) (header : Header)
        (evidence : ClientId → Misbehaviour)
      → IsScenario client consensus now header evidence
      → run_tests (call_tests client consensus now header evidence) ≡ ok tt
  unfolding call_tests
  call_tests_pass L D W R F client consensus now header evidence s =
      rw
        (
          Made.client_type_passes K T,
          Answered.latest_height_passes K T L D W R F client consensus s.representable,
          Answered.not_found_passes K T L D W R F,
          Made.success_passes K T L D W F client consensus s.representable s.initialized s.unfrozen
              s.consensus_valid,
          Made.frozen_passes K T L D W F client consensus s.representable s.initialized s.unfrozen
              s.consensus_valid,
          Made.invalid_client_passes K T L D W F,
          Made.unknown_client_passes K T L D W F,
          Made.invalid_consensus_passes K T L D W F client consensus s.representable s.initialized
              s.unfrozen s.consensus_valid,
          Answered.verify_membership_passes K T L D W R F client consensus s.representable,
          Answered.verify_non_membership_passes K T L D W R F client consensus s.representable,
          Answered.update_frozen_passes K T L D W R F client consensus s.representable now header
              s.header_trusts,
          Answered.update_passes K T L D W R F client consensus s.representable now header
              s.header_trusts s.new_client s.new_consensus s.unfrozen s.header_accepted
              s.header_block,
          Submitted.submit_frozen_passes K T L D W R F client consensus s.representable now evidence
              s.evidence_trusts,
          Submitted.submit_passes K T L D W R F client consensus s.representable now evidence
              s.evidence_trusts s.frozen_client s.unfrozen s.evidence_accepted,
        )
        refl
