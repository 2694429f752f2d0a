-- ===== src/External/Types.antt =====
-- `ethereum_light_client_types` and `ethereum_light_client_proto`.
use ethereum_elc.Base.{ℕ, Bool, Result}
use ethereum_elc.Std.{Duration}
use ethereum_elc.External.Proto.{ProtoForkParameters}
use ethereum_elc.External.Consensus.{EthereumConsensus}
use ethereum_elc.External.Verifier.{LightClientVerifier}

pub record LightClientTypes (K : EthereumConsensus) (V : LightClientVerifier K) : Type 1 where
  pub LcTypesError : Type 0
  pub LcHeight : Type 0
  pub lc_height_new : (revision_number revision_height : ℕ) → LcHeight
  pub lc_revision_number : LcHeight → ℕ
  pub lc_revision_height : LcHeight → ℕ
  -- `TrustedSyncCommittee`, with its `validate` and its conversions from and to protobuf.
  pub SyncCommittee : Type 0
  pub TrustedSyncCommittee : Type 0
  pub RawTrustedSyncCommittee : Type 0
  pub trusted_height : TrustedSyncCommittee → LcHeight
  pub sync_committee : TrustedSyncCommittee → SyncCommittee
  pub is_next : TrustedSyncCommittee → Bool
  pub trusted_sync_committee_validate : TrustedSyncCommittee → Result LcTypesError (Unit {0})
  pub trusted_sync_committee_try_from :
      RawTrustedSyncCommittee → Result LcTypesError TrustedSyncCommittee
  pub trusted_sync_committee_into : TrustedSyncCommittee → RawTrustedSyncCommittee
  -- `ConsensusUpdateInfo`
  pub ConsensusUpdate : Type 0
  pub RawConsensusUpdate : Type 0
  pub finalized_header_slot : ConsensusUpdate → ℕ
  pub finalized_beacon_header_slot : ConsensusUpdate → ℕ
  pub convert_proto_to_consensus_update : RawConsensusUpdate → Result LcTypesError ConsensusUpdate
  pub convert_consensus_update_to_proto : ConsensusUpdate → Result LcTypesError RawConsensusUpdate
  -- `ExecutionUpdateInfo`
  pub ExecutionUpdate : Type 0
  pub RawExecutionUpdate : Type 0
  pub state_root : ExecutionUpdate → K.H256
  pub block_number : ExecutionUpdate → ℕ
  pub execution_timestamp : ExecutionUpdate → V.Context → ℕ → Result LcTypesError ℕ
  pub convert_proto_to_execution_update : RawExecutionUpdate → Result LcTypesError ExecutionUpdate
  -- `AccountUpdateInfo`
  pub AccountUpdate : Type 0
  pub RawAccountUpdate : Type 0
  pub account_storage_root : AccountUpdate → K.H256
  pub account_update_try_from : RawAccountUpdate → Result LcTypesError AccountUpdate
  pub convert_proto_to_fork_parameters : ProtoForkParameters → Result LcTypesError K.ForkParameters
  -- `TrustedConsensusState`, and what `compute_sync_committees` returns.
  pub TrustedState : Type 0
  pub SyncCommittees : Type 0
  pub current_committee : SyncCommittees → K.PublicKey
  pub next_committee : SyncCommittees → K.PublicKey
  -- Checks that use none of the client's own types.
  pub verify_account_storage :
      V.ExecutionVerifier → K.H256 → K.Address → AccountUpdate → Result LcTypesError (Unit {0})
  pub validate_state_timestamp_within_trusting_period :
      (now_nanos : ℕ) → Duration → (consensus_state_nanos : ℕ) → Result LcTypesError (Unit {0})
  pub validate_header_timestamp_not_future :
      (now_nanos : ℕ) → Duration → (header_nanos : ℕ) → Result LcTypesError (Unit {0})
