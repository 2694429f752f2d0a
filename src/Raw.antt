-- ===== src/Raw.antt =====
-- proto/src/prost/ibc.lightclients.ethereum.v1.rs: the protobuf messages of the client.
use ethereum_elc.Base.{ℕ, String, Option, List}
use ethereum_elc.External.{Crates}
use ethereum_elc.External.Proto.{ProtoTimestamp, ProtoHeight, ProtoFraction, ProtoForkParameters}

module _ ⦃C : Crates⦄ where
  open C use {
    ProtoDuration, RawTrustedSyncCommittee, RawConsensusUpdate, RawExecutionUpdate,
    RawAccountUpdate,
  }

  pub record RawClientState : Type 0 where
    pub genesis_validators_root : List ℕ
    pub min_sync_committee_participants : ℕ
    pub genesis_time : ℕ
    pub fork_parameters : Option ProtoForkParameters
    pub seconds_per_slot : ℕ
    pub slots_per_epoch : ℕ
    pub epochs_per_sync_committee_period : ℕ
    pub ibc_address : List ℕ
    pub ibc_commitments_slot : List ℕ
    pub trust_level : Option ProtoFraction
    pub trusting_period : Option ProtoDuration
    pub max_clock_drift : Option ProtoDuration
    pub latest_execution_block_number : ℕ
    pub frozen_height : Option ProtoHeight

  pub record RawConsensusState : Type 0 where
    pub slot : ℕ
    pub storage_root : List ℕ
    pub timestamp : Option ProtoTimestamp
    pub current_sync_committee : List ℕ
    pub next_sync_committee : List ℕ

  pub record RawHeader : Type 0 where
    pub trusted_sync_committee : Option RawTrustedSyncCommittee
    pub consensus_update : Option RawConsensusUpdate
    pub execution_update : Option RawExecutionUpdate
    pub account_update : Option RawAccountUpdate

  pub record RawFinalizedHeaderMisbehaviour : Type 0 where
    pub client_id : String
    pub trusted_sync_committee : Option RawTrustedSyncCommittee
    pub consensus_update_1 : Option RawConsensusUpdate
    pub consensus_update_2 : Option RawConsensusUpdate

  pub record RawNextSyncCommitteeMisbehaviour : Type 0 where
    pub client_id : String
    pub trusted_sync_committee : Option RawTrustedSyncCommittee
    pub consensus_update_1 : Option RawConsensusUpdate
    pub consensus_update_2 : Option RawConsensusUpdate
