-- ===== src/ConsensusState.antt =====
-- light-client/src/consensus_state.rs: the consensus state and its checks.
pub mod Checks
pub mod Codec
use ethereum_elc.Base.{
  ℕ, Bool, List, [], ◌∷◌, Outcome, ok, err, expect, ◌>>=◌, ltb, ◌==◌, if◌then◌else◌, decided,
}
use ethereum_elc.External.{Crates}
use ethereum_elc.Errors.{Error, uninitialized_consensus_state_field}

module _ ⦃C : Crates⦄ where
  open C use {
    H256, PublicKey, Time, Context, h256_default, h256_as_bytes, public_key_dec, public_key_default,
    time_from_nanos, as_unix_timestamp_nanos, compute_sync_committee_period_at_slot,
  }

  pub record ConsensusState : Type 0 where
    pub slot : ℕ
    pub storage_root : H256
    pub timestamp : Time
    pub current_sync_committee : PublicKey
    pub next_sync_committee : PublicKey

  -- `Default for ConsensusState`
  unfoldable pub default_consensus_state : {E : Type 0} → Outcome E ConsensusState
  default_consensus_state = do
    epoch ← expect (time_from_nanos 0)
    ok (record {
      slot = 0;
      storage_root = h256_default;
      timestamp = epoch;
      current_sync_committee = public_key_default;
      next_sync_committee = public_key_default;
    })

  -- The trait `TrustedSyncCommitteeInfo`, by which the light client's crates read a state.
  pub record TrustedSyncCommitteeInfo : Type 0 where
    pub current_period : Context → ℕ
    pub current_sync_committee : PublicKey
    pub next_sync_committee : PublicKey
    pub is_relevant_update : ℕ → Bool

  -- `ConsensusState::current_period`, which is also the trait's.
  abbrev pub current_period : ConsensusState → Context → ℕ
  current_period state ctx = compute_sync_committee_period_at_slot ctx state.slot

  -- `impl TrustedSyncCommitteeInfo for ConsensusState`
  abbrev pub committee_info : ConsensusState → TrustedSyncCommitteeInfo
  committee_info state = record {
    current_period = current_period state;
    current_sync_committee = state.current_sync_committee;
    next_sync_committee = state.next_sync_committee;
    is_relevant_update = λ update_finalized_slot. ltb state.slot update_finalized_slot;
  }

  -- `as_bytes().is_empty()`
  abbrev pub is_empty : List ℕ → Bool
  is_empty [] = Bool.true
  is_empty (b ∷ bs) = Bool.false

  -- `ConsensusState::validate`
  unfoldable pub validate_consensus_state : ConsensusState → Outcome Error (Unit {0})
  validate_consensus_state state =
      if state.slot == 0
      then err (uninitialized_consensus_state_field "slot")
      else if is_empty (h256_as_bytes state.storage_root)
      then err (uninitialized_consensus_state_field "storage_root")
      else if as_unix_timestamp_nanos state.timestamp == 0
      then err (uninitialized_consensus_state_field "timestamp")
      else if decided (public_key_dec state.current_sync_committee public_key_default)
      then err (uninitialized_consensus_state_field "current_sync_committee")
      else if decided (public_key_dec state.next_sync_committee public_key_default)
      then err (uninitialized_consensus_state_field "next_sync_committee")
      else ok tt
