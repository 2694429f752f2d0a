-- ===== src/ConsensusState/Checks.antt =====
-- light-client/src/consensus_state.rs: what `ConsensusState::validate` accepts and what it reports.
use ethereum_elc.Base.{◌≡◌, ◌≢◌, ◌↔◌, ok, err, [], arith, length}
use ethereum_elc.External.{Crates}
use ethereum_elc.Errors.{Error, uninitialized_consensus_state_field}
use ethereum_elc.ConsensusState.{ConsensusState, validate_consensus_state}

module _ ⦃C : Crates⦄ where
  open C use {H256, h256_as_bytes, as_unix_timestamp_nanos, public_key_default}

  -- What `validate` looks at, besides the length of the storage root.
  pub record IsInitialized (s : ConsensusState) : Type 0 where
    pub slot_set : s.slot ≢ 0
    pub timestamp_set : as_unix_timestamp_nanos s.timestamp ≢ 0
    pub current_set : s.current_sync_committee ≢ public_key_default
    pub next_set : s.next_sync_committee ≢ public_key_default

  -- For a consensus state whose storage root has 32 bytes, validate accepts it exactly if its
  -- slot, time and both keys are set, whatever the storage root is, the default one included.
  pub validate_consensus_state-IsInitialized :
      (s : ConsensusState)
      → length (h256_as_bytes s.storage_root) ≡ 32
      → (validate_consensus_state s ≡ ok tt) ↔ IsInitialized s
  unfolding validate_consensus_state
  validate_consensus_state-IsInitialized s w = (λ h. ground arith, λ h. ground arith)

  -- What an error of `validate` reports.
  pub data Reports (s : ConsensusState) : Error → Type 0 where
    slot : s.slot ≡ 0 → Reports s (uninitialized_consensus_state_field "slot")
    storage_root :
        h256_as_bytes s.storage_root ≡ []
        → Reports s (uninitialized_consensus_state_field "storage_root")
    timestamp :
        as_unix_timestamp_nanos s.timestamp ≡ 0
        → Reports s (uninitialized_consensus_state_field "timestamp")
    current_sync_committee :
        s.current_sync_committee ≡ public_key_default
        → Reports s (uninitialized_consensus_state_field "current_sync_committee")
    next_sync_committee :
        s.next_sync_committee ≡ public_key_default
        → Reports s (uninitialized_consensus_state_field "next_sync_committee")

  pub validate_consensus_state-Reports :
      (s : ConsensusState) (e : Error) → validate_consensus_state s ≡ err e → Reports s e
  unfolding validate_consensus_state
  validate_consensus_state-Reports s e h =
      grind (arith, slot, storage_root, timestamp, current_sync_committee, next_sync_committee)
