-- ===== src/ClientState/Update.antt =====
-- light-client/src/client_state.rs: `check_header_and_update_state` and
-- `check_misbehaviour_and_update_state`.
pub mod Accepted
pub mod Order
pub mod Refused
use ethereum_elc.Base.{
  ℕ, Bool, Outcome, ok, try_with, reject_if, ◌>>=◌, ◌>>◌, ltb, if◌then◌else◌, decided, not,
}
use ethereum_elc.External.{Crates}
use ethereum_elc.Errors.{
  Error, ethereum_light_client_types, verification, unexpected_client_id_in_misbehaviour,
}
use ethereum_elc.Misc.{to_lcp_height}
use ethereum_elc.ConsensusState.{ConsensusState, committee_info}
use ethereum_elc.ClientState.{ClientState, build_context, with_frozen_height}
use ethereum_elc.Header.{Header, validate_header, header_timestamp}
use ethereum_elc.Misbehaviour.{Misbehaviour, validate_misbehaviour}
use ethereum_elc.Services.{Services}

module _ ⦃C : Crates⦄ ⦃S : Services⦄ where
  open C use {
    Time, ClientId, TrustedState, SyncCommittee, SyncCommittees, as_unix_timestamp_nanos,
    trusted_height, sync_committee, is_next, state_root, block_number, account_storage_root,
    finalized_header_slot, current_committee, next_committee, client_id_dec, verify_account_storage,
    validate_state_timestamp_within_trusting_period, validate_header_timestamp_not_future,
  }

  -- `TrustedConsensusState::new(state.clone(), committee, is_next)?`
  abbrev pub trusted_consensus_state :
      ConsensusState → C.TrustedSyncCommittee → Outcome Error TrustedState
  trusted_consensus_state state committee =
      try_with ethereum_light_client_types
        (S.trusted_state_new committee_info state (sync_committee committee) (is_next committee))

  -- The trusting period check, which both functions make.
  abbrev pub within_trusting_period : ClientState → Time → ConsensusState → Outcome Error (Unit {0})
  within_trusting_period self now state = try_with ethereum_light_client_types (
      validate_state_timestamp_within_trusting_period (as_unix_timestamp_nanos now)
        self.trusting_period (as_unix_timestamp_nanos state.timestamp))

  -- "apply updates to state", on the client state.
  unfoldable pub apply_header : ClientState → Header → ClientState
  apply_header self header =
      if ltb self.latest_execution_block_number (block_number header.execution_update)
      then record self { latest_execution_block_number = block_number header.execution_update }
      else self

  -- "apply updates to state", on the consensus state.
  unfoldable pub apply_consensus : Header → Time → SyncCommittees → ConsensusState → ConsensusState
  apply_consensus header timestamp committees state = record state {
    slot = finalized_header_slot header.consensus_update;
    storage_root = account_storage_root header.account_update;
    timestamp = timestamp;
    current_sync_committee = current_committee committees;
    next_sync_committee = next_committee committees;
  }

  -- `check_header_and_update_state`
  unfoldable pub check_header_and_update_state :
      ClientState → Time → ConsensusState → Header → Outcome Error (ClientState × ConsensusState)
  unfolding apply_header apply_consensus
  check_header_and_update_state self now consensus_state header = do
    let cc = build_context self now
    validate_header header
    timestamp ← header_timestamp header cc
    trusted ← trusted_consensus_state consensus_state header.trusted_sync_committee
    try_with verification (
        S.validate_updates self.consensus_verifier cc trusted header.consensus_update
          header.execution_update)
    try_with ethereum_light_client_types (
        verify_account_storage self.execution_verifier (state_root header.execution_update)
          self.ibc_address header.account_update)
    within_trusting_period self now consensus_state
    try_with ethereum_light_client_types (
        validate_header_timestamp_not_future (as_unix_timestamp_nanos now) self.max_clock_drift
          (as_unix_timestamp_nanos timestamp))
    committees ←
        try_with ethereum_light_client_types
          (S.compute_sync_committees committee_info cc consensus_state header.consensus_update)
    ok (apply_header self header, apply_consensus header timestamp committees consensus_state)

  -- `check_misbehaviour_and_update_state`
  unfoldable pub check_misbehaviour_and_update_state :
      ClientState → Time → ClientId → ConsensusState → Misbehaviour → Outcome Error ClientState
  check_misbehaviour_and_update_state self now client_id consensus_state misbehaviour = do
    validate_misbehaviour misbehaviour
    reject_if (not (decided (client_id_dec misbehaviour.client_id client_id)))
        (unexpected_client_id_in_misbehaviour client_id misbehaviour.client_id)
    let cc = build_context self now
    trusted ← trusted_consensus_state consensus_state misbehaviour.trusted_sync_committee
    try_with verification
        (S.verify_misbehaviour self.consensus_verifier cc trusted misbehaviour.evidence)
    within_trusting_period self now consensus_state
    ok (
        with_frozen_height self
          (to_lcp_height (trusted_height misbehaviour.trusted_sync_committee)))
