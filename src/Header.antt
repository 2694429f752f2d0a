-- ===== src/Header.antt =====
-- light-client/src/header.rs: the header message, its check and its timestamp.
pub mod Codec
use ethereum_elc.Base.{ℕ, String, Outcome, ok, try_with, reject_if, ◌>>=◌, ◌>>◌, ◌==◌}
use ethereum_elc.External.{Crates}
use ethereum_elc.Errors.{Error, ethereum_light_client_types, from_time_error, zero_block_number}
use ethereum_elc.Misbehaviour.{Misbehaviour}

abbrev pub ethereum_header_type_url : String
ethereum_header_type_url = "/ibc.lightclients.ethereum.v1.Header"

module _ ⦃C : Crates⦄ where
  open C use {
    TrustedSyncCommittee, ConsensusUpdate, ExecutionUpdate, AccountUpdate, Context, Time,
    trusted_sync_committee_validate, block_number, execution_timestamp,
    finalized_beacon_header_slot, time_from_nanos,
  }

  pub record Header : Type 0 where
    pub trusted_sync_committee : TrustedSyncCommittee
    pub consensus_update : ConsensusUpdate
    pub execution_update : ExecutionUpdate
    pub account_update : AccountUpdate

  pub data ClientMessage : Type 0 where
    header : Header → ClientMessage
    misbehaviour : Misbehaviour → ClientMessage

  -- `Header::validate`
  unfoldable pub validate_header : Header → Outcome Error (Unit {0})
  validate_header h = do
    try_with ethereum_light_client_types (trusted_sync_committee_validate h.trusted_sync_committee)
    reject_if (block_number h.execution_update == 0) zero_block_number
    ok tt

  -- `Header::timestamp`
  unfoldable pub header_timestamp : Header → Context → Outcome Error Time
  header_timestamp h ctx = do
    nanos ← try_with ethereum_light_client_types (
        execution_timestamp h.execution_update ctx
          (finalized_beacon_header_slot h.consensus_update))
    try_with from_time_error (time_from_nanos nanos)
