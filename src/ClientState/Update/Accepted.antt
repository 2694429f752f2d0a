-- ===== src/ClientState/Update/Accepted.antt =====
-- light-client/src/client_state.rs: when an update or evidence of misbehaviour is accepted, and what
-- the accepted one changes.
use ethereum_elc.Base.{ℕ, some, ◌≡◌, ◌≢◌, ◌↔◌, ok, panic, success, arith}
use Prim.Native.Nat.{max}
use ethereum_elc.External.{Crates}
use ethereum_elc.ConsensusState.{ConsensusState, committee_info}
use ethereum_elc.ClientState.{ClientState, build_context}
use ethereum_elc.ClientState.Update.{
  check_header_and_update_state, check_misbehaviour_and_update_state,
}
use ethereum_elc.Misc.{to_lcp_height}
use ethereum_elc.Header.{Header, validate_header, header_timestamp}
use ethereum_elc.Misbehaviour.{Misbehaviour, validate_misbehaviour}
use ethereum_elc.Services.{Services}

module _ ⦃C : Crates⦄ ⦃S : Services⦄ where
  open C use {
    Time, ClientId, TrustedState, SyncCommittees, trusted_sync_committee_validate, block_number,
    execution_timestamp, finalized_beacon_header_slot, time_from_nanos, sync_committee, is_next,
    trusted_height, verify_account_storage, state_root, as_unix_timestamp_nanos,
    validate_state_timestamp_within_trusting_period, validate_header_timestamp_not_future,
    current_committee, next_committee, finalized_header_slot, account_storage_root,
  }

  -- Every check that an update must pass, with the values that the checks compute.
  pub record HeaderAccepted (self : ClientState) (now : Time) (state : ConsensusState)
      (header : Header) (new_self : ClientState) (new_state : ConsensusState) : Type 0 where
    pub nanos : ℕ
    pub timestamp : Time
    pub trusted : TrustedState
    pub committees : SyncCommittees
    pub committee_valid : trusted_sync_committee_validate header.trusted_sync_committee ≡ success tt
    pub block_nonzero : block_number header.execution_update ≢ 0
    pub nanos_known :
        execution_timestamp header.execution_update
          (build_context self now)
          (finalized_beacon_header_slot header.consensus_update)
        ≡ success nanos
    pub timestamp_known : time_from_nanos nanos ≡ success timestamp
    pub committee_trusted :
        S.trusted_state_new committee_info state
          (sync_committee header.trusted_sync_committee)
          (is_next header.trusted_sync_committee)
        ≡ success trusted
    pub updates_verified :
        S.validate_updates self.consensus_verifier
          (build_context self now)
          trusted
          header.consensus_update
          header.execution_update
        ≡ success tt
    pub account_verified :
        verify_account_storage self.execution_verifier
          (state_root header.execution_update)
          self.ibc_address
          header.account_update
        ≡ success tt
    pub state_not_expired :
        validate_state_timestamp_within_trusting_period
          (as_unix_timestamp_nanos now)
          self.trusting_period
          (as_unix_timestamp_nanos state.timestamp)
        ≡ success tt
    pub header_not_future :
        validate_header_timestamp_not_future
          (as_unix_timestamp_nanos now)
          self.max_clock_drift
          (as_unix_timestamp_nanos timestamp)
        ≡ success tt
    pub committees_known :
        S.compute_sync_committees committee_info
          (build_context self now)
          state
          header.consensus_update
        ≡ success committees
    pub new_client_state : new_self ≡ record self {
      latest_execution_block_number =
          max self.latest_execution_block_number (block_number header.execution_update);
    }
    pub new_consensus_state : new_state ≡ record {
      slot = finalized_header_slot header.consensus_update;
      storage_root = account_storage_root header.account_update;
      timestamp = timestamp;
      current_sync_committee = current_committee committees;
      next_sync_committee = next_committee committees;
    }

  -- check_header_and_update_state accepts a header exactly if all its checks do (committee,
  -- nonzero block, timestamp, trusted committee, updates, account proof, trusting period, clock
  -- drift, next committees); the new client state then differs only in the latest block number,
  -- which is the maximum of the old one and the header's, and every field of the new consensus
  -- state comes from the header, its timestamp and the computed committees.
  pub check_header-HeaderAccepted :
      (self : ClientState) (now : Time) (state : ConsensusState) (header : Header)
      (new_self : ClientState) (new_state : ConsensusState)
      → (check_header_and_update_state self now state header ≡ ok (new_self, new_state))
        ↔ HeaderAccepted self now state header new_self new_state
  unfolding check_header_and_update_state validate_header header_timestamp
  check_header-HeaderAccepted self now state header new_self new_state =
      (λ h. ground arith, λ a. ground arith)

  -- Every check that evidence of misbehaviour must pass.
  pub record MisbehaviourAccepted (self : ClientState) (now : Time) (client_id : ClientId)
      (state : ConsensusState) (m : Misbehaviour) (new_self : ClientState) : Type 0 where
    pub trusted : TrustedState
    pub committee_valid : trusted_sync_committee_validate m.trusted_sync_committee ≡ success tt
    pub same_client : m.client_id ≡ client_id
    pub committee_trusted :
        S.trusted_state_new committee_info state
          (sync_committee m.trusted_sync_committee)
          (is_next m.trusted_sync_committee)
        ≡ success trusted
    pub evidence_verified :
        S.verify_misbehaviour self.consensus_verifier (build_context self now) trusted m.evidence
        ≡ success tt
    pub state_not_expired :
        validate_state_timestamp_within_trusting_period
          (as_unix_timestamp_nanos now)
          self.trusting_period
          (as_unix_timestamp_nanos state.timestamp)
        ≡ success tt
    pub new_client_state : new_self ≡ record self {
      frozen_height = some (to_lcp_height (trusted_height m.trusted_sync_committee));
    }

  -- check_misbehaviour_and_update_state accepts evidence exactly if its committee is valid, it
  -- names this client, the committee is trusted, the evidence is verified and the consensus state
  -- is within the trusting period; the new client state then differs only in being frozen at the
  -- trusted height.
  pub check_misbehaviour-MisbehaviourAccepted :
      (self : ClientState) (now : Time) (client_id : ClientId) (state : ConsensusState)
      (m : Misbehaviour) (new_self : ClientState)
      → (check_misbehaviour_and_update_state self now client_id state m ≡ ok new_self)
        ↔ MisbehaviourAccepted self now client_id state m new_self
  unfolding check_misbehaviour_and_update_state validate_misbehaviour
  check_misbehaviour-MisbehaviourAccepted self now client_id state m new_self =
      (λ h. ground arith, λ a. ground arith)

  pub check_header_no_panic :
      (self : ClientState) (now : Time) (state : ConsensusState) (header : Header)
      → check_header_and_update_state self now state header ≢ panic
  unfolding check_header_and_update_state validate_header header_timestamp
  check_header_no_panic self now state header = ground arith

  pub check_misbehaviour_no_panic :
      (self : ClientState) (now : Time) (client_id : ClientId) (state : ConsensusState)
      (m : Misbehaviour)
      → check_misbehaviour_and_update_state self now client_id state m ≢ panic
  unfolding check_misbehaviour_and_update_state validate_misbehaviour
  check_misbehaviour_no_panic self now client_id state m = ground arith
