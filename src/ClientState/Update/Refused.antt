-- ===== src/ClientState/Update/Refused.antt =====
-- Why an update or evidence of misbehaviour is refused: what each error of
-- light-client/src/client_state.rs says about the message and the states.
use ethereum_elc.Base.{ℕ, ◌≡◌, ◌≢◌, ok, err, success, failure, arith}
use ethereum_elc.External.{Crates}
use ethereum_elc.Errors.{
  Error, ethereum_light_client_types, verification, time, zero_block_number,
  unexpected_client_id_in_misbehaviour,
}
use ethereum_elc.ConsensusState.{ConsensusState, committee_info}
use ethereum_elc.ClientState.{ClientState, build_context}
use ethereum_elc.ClientState.Update.{
  check_header_and_update_state, check_misbehaviour_and_update_state,
}
use ethereum_elc.Header.{Header, validate_header, header_timestamp}
use ethereum_elc.Misbehaviour.{Misbehaviour, validate_misbehaviour}
use ethereum_elc.Services.{Services}

module _ ⦃C : Crates⦄ ⦃S : Services⦄ where
  open C use {
    Time, ClientId, TrustedState, LcTypesError, VerifierError, TimeError,
    trusted_sync_committee_validate, block_number, execution_timestamp,
    finalized_beacon_header_slot, time_from_nanos, sync_committee, is_next, verify_account_storage,
    state_root, as_unix_timestamp_nanos, validate_state_timestamp_within_trusting_period,
    validate_header_timestamp_not_future,
  }

  pub data HeaderRefused (self : ClientState) (now : Time) (state : ConsensusState)
      (header : Header) : Error → Type 0 where
    committee_invalid :
        (e : LcTypesError)
        → trusted_sync_committee_validate header.trusted_sync_committee ≡ failure e
        → HeaderRefused self now state header (ethereum_light_client_types e)
    block_zero :
        block_number header.execution_update ≡ 0
        → HeaderRefused self now state header zero_block_number
    timestamp_unknown :
        (e : LcTypesError)
        → execution_timestamp header.execution_update
            (build_context self now)
            (finalized_beacon_header_slot header.consensus_update)
          ≡ failure e
        → HeaderRefused self now state header (ethereum_light_client_types e)
    timestamp_invalid :
        (nanos : ℕ) (e : TimeError)
        → execution_timestamp header.execution_update
            (build_context self now)
            (finalized_beacon_header_slot header.consensus_update)
          ≡ success nanos
        → time_from_nanos nanos ≡ failure e
        → HeaderRefused self now state header (time e)
    committee_untrusted :
        (e : LcTypesError)
        → S.trusted_state_new committee_info state
            (sync_committee header.trusted_sync_committee)
            (is_next header.trusted_sync_committee)
          ≡ failure e
        → HeaderRefused self now state header (ethereum_light_client_types e)
    updates_unverified :
        (trusted : TrustedState) (e : VerifierError)
        → S.trusted_state_new committee_info state
            (sync_committee header.trusted_sync_committee)
            (is_next header.trusted_sync_committee)
          ≡ success trusted
        → S.validate_updates self.consensus_verifier
            (build_context self now)
            trusted
            header.consensus_update
            header.execution_update
          ≡ failure e
        → HeaderRefused self now state header (verification e)
    account_unverified :
        (e : LcTypesError)
        → verify_account_storage self.execution_verifier
            (state_root header.execution_update)
            self.ibc_address
            header.account_update
          ≡ failure e
        → HeaderRefused self now state header (ethereum_light_client_types e)
    state_expired :
        (e : LcTypesError)
        → validate_state_timestamp_within_trusting_period
            (as_unix_timestamp_nanos now)
            self.trusting_period
            (as_unix_timestamp_nanos state.timestamp)
          ≡ failure e
        → HeaderRefused self now state header (ethereum_light_client_types e)
    header_future :
        (timestamp : Time) (e : LcTypesError)
        → header_timestamp header (build_context self now) ≡ ok timestamp
        → validate_header_timestamp_not_future
            (as_unix_timestamp_nanos now)
            self.max_clock_drift
            (as_unix_timestamp_nanos timestamp)
          ≡ failure e
        → HeaderRefused self now state header (ethereum_light_client_types e)
    committees_unknown :
        (e : LcTypesError)
        → S.compute_sync_committees committee_info
            (build_context self now)
            state
            header.consensus_update
          ≡ failure e
        → HeaderRefused self now state header (ethereum_light_client_types e)

  pub check_header-HeaderRefused :
      (self : ClientState) (now : Time) (state : ConsensusState) (header : Header) (e : Error)
      → check_header_and_update_state self now state header ≡ err e
      → HeaderRefused self now state header e
  unfolding check_header_and_update_state validate_header header_timestamp
  check_header-HeaderRefused self now state header e h = grind (
    arith, committee_invalid, block_zero, timestamp_unknown, timestamp_invalid, committee_untrusted,
    updates_unverified, account_unverified, state_expired, header_future, committees_unknown,
  )

  pub data MisbehaviourRefused (self : ClientState) (now : Time) (client_id : ClientId)
      (state : ConsensusState) (m : Misbehaviour) : Error → Type 0 where
    committee_invalid :
        (e : LcTypesError)
        → trusted_sync_committee_validate m.trusted_sync_committee ≡ failure e
        → MisbehaviourRefused self now client_id state m (ethereum_light_client_types e)
    other_client :
        m.client_id ≢ client_id
        → MisbehaviourRefused self now client_id state m
            (unexpected_client_id_in_misbehaviour client_id m.client_id)
    committee_untrusted :
        (e : LcTypesError)
        → S.trusted_state_new committee_info state
            (sync_committee m.trusted_sync_committee)
            (is_next m.trusted_sync_committee)
          ≡ failure e
        → MisbehaviourRefused self now client_id state m (ethereum_light_client_types e)
    evidence_unverified :
        (trusted : TrustedState) (e : VerifierError)
        → S.trusted_state_new committee_info state
            (sync_committee m.trusted_sync_committee)
            (is_next m.trusted_sync_committee)
          ≡ success trusted
        → S.verify_misbehaviour self.consensus_verifier (build_context self now) trusted m.evidence
          ≡ failure e
        → MisbehaviourRefused self now client_id state m (verification e)
    state_expired :
        (e : LcTypesError)
        → validate_state_timestamp_within_trusting_period
            (as_unix_timestamp_nanos now)
            self.trusting_period
            (as_unix_timestamp_nanos state.timestamp)
          ≡ failure e
        → MisbehaviourRefused self now client_id state m (ethereum_light_client_types e)

  pub check_misbehaviour-MisbehaviourRefused :
      (self : ClientState) (now : Time) (client_id : ClientId) (state : ConsensusState)
      (m : Misbehaviour) (e : Error)
      → check_misbehaviour_and_update_state self now client_id state m ≡ err e
      → MisbehaviourRefused self now client_id state m e
  unfolding check_misbehaviour_and_update_state validate_misbehaviour
  check_misbehaviour-MisbehaviourRefused self now client_id state m e h = grind (
    arith, MisbehaviourRefused.committee_invalid, other_client,
    MisbehaviourRefused.committee_untrusted, evidence_unverified, MisbehaviourRefused.state_expired,
  )
