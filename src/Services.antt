-- ===== src/Services.antt =====
-- The operations of other crates that are generic in the client's own types, at those types: the
-- verifier, the membership proofs, the protobuf codec and the framework's conversions. A trait
-- bound is the record of the trait's methods.
mod Messages
pub use Messages.*
use ethereum_elc.Base.{ℕ, Bool, String, Result, List}
use ethereum_elc.External.{Crates}
use ethereum_elc.Errors.{Error}
use ethereum_elc.Raw.{
  RawClientState, RawConsensusState, RawHeader, RawFinalizedHeaderMisbehaviour,
  RawNextSyncCommitteeMisbehaviour,
}
use ethereum_elc.ConsensusState.{ConsensusState, TrustedSyncCommitteeInfo}
use ethereum_elc.ClientState.{ClientState}
use ethereum_elc.Misbehaviour.{MisbehaviourData}

module _ ⦃C : Crates⦄ where
  open C use {
    H256, Context, ConsensusVerifier, ExecutionVerifier, VerifierError, LcTypesError, LcHeight,
    SyncCommittee, ConsensusUpdate, ExecutionUpdate, TrustedState, SyncCommittees, DecodeError,
    EncodeError, LcError, MembershipValue, ProxyMessage, UpdateClientResult,
  }

  -- The trait `ethereum_light_client_types::client_state::ClientState`.
  pub record EthClientState (S : Type 0) : Type 0 where
    pub latest_height : S → LcHeight
    pub ibc_commitments_slot : S → H256
    pub canonicalize : S → S

  -- The trait `ethereum_light_client_types::consensus_state::ConsensusState`.
  pub record EthConsensusState (S : Type 0) : Type 0 where
    pub storage_root : S → H256

  pub record Services : Type 0 where
    -- `ethereum_light_client_types`
    pub trusted_state_new :
        (ConsensusState → TrustedSyncCommitteeInfo)
        → ConsensusState
        → SyncCommittee
        → (is_next : Bool) → Result LcTypesError TrustedState
    pub compute_sync_committees :
        (ConsensusState → TrustedSyncCommitteeInfo)
        → Context
        → ConsensusState
        → ConsensusUpdate
        → Result LcTypesError SyncCommittees
    pub verify_membership :
        EthClientState ClientState
        → EthConsensusState ConsensusState
        → ClientState
        → ConsensusState
        → (path : String) → (value : List ℕ) → (proof_height : LcHeight) → (proof : List ℕ)
        → ExecutionVerifier
        → Result LcTypesError MembershipValue
    pub verify_non_membership :
        EthClientState ClientState
        → EthConsensusState ConsensusState
        → ClientState
        → ConsensusState
        → (path : String) → (proof_height : LcHeight) → (proof : List ℕ) → ExecutionVerifier
        → Result LcTypesError (Unit {0})
    -- `SyncProtocolVerifier` of `ethereum_light_client_verifier`
    pub validate_updates :
        ConsensusVerifier
        → Context
        → TrustedState
        → ConsensusUpdate
        → ExecutionUpdate
        → Result VerifierError (Unit {0})
    pub verify_misbehaviour :
        ConsensusVerifier
        → Context
        → TrustedState
        → MisbehaviourData
        → Result VerifierError (Unit {0})
    -- `prost::Message::{encode, decode}` of the client's messages
    pub encode_client_state : RawClientState → Result EncodeError (List ℕ)
    pub decode_client_state : List ℕ → Result DecodeError RawClientState
    pub encode_consensus_state : RawConsensusState → Result EncodeError (List ℕ)
    pub decode_consensus_state : List ℕ → Result DecodeError RawConsensusState
    pub decode_header : List ℕ → Result DecodeError RawHeader
    pub decode_finalized_header : List ℕ → Result DecodeError RawFinalizedHeaderMisbehaviour
    pub decode_next_sync_committee : List ℕ → Result DecodeError RawNextSyncCommitteeMisbehaviour
    -- `light_client`: `From` of the client's errors and of the results of a call
    pub specific_error : Error → LcError
    pub update_message_into : UpdateStateProxyMessage → ProxyMessage
    pub update_result_from_state : UpdateStateData → UpdateClientResult
    pub update_result_from_misbehaviour : MisbehaviourReport → UpdateClientResult
