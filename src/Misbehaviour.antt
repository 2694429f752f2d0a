-- ===== src/Misbehaviour.antt =====
-- light-client/src/misbehaviour.rs: the evidence of misbehaviour and its check. The two kinds of
-- evidence are an enum of `ethereum_light_client_verifier`, given by the variants the source uses.
pub mod Codec
use ethereum_elc.Base.{String, Outcome, ok, try_with, ◌>>=◌, ◌>>◌}
use ethereum_elc.External.{Crates}
use ethereum_elc.Errors.{Error, ethereum_light_client_types}

abbrev pub ethereum_finalized_header_misbehaviour_type_url : String
ethereum_finalized_header_misbehaviour_type_url =
    "/ibc.lightclients.ethereum.v1.FinalizedHeaderMisbehaviour"

abbrev pub ethereum_next_sync_committee_misbehaviour_type_url : String
ethereum_next_sync_committee_misbehaviour_type_url =
    "/ibc.lightclients.ethereum.v1.NextSyncCommitteeMisbehaviour"

module _ ⦃C : Crates⦄ where
  open C use {ClientId, TrustedSyncCommittee, ConsensusUpdate, trusted_sync_committee_validate}

  -- The verifier's `Misbehaviour`, each variant with its `consensus_update_1` and `_2`.
  pub data MisbehaviourData : Type 0 where
    finalized_header : (consensus_update_1 consensus_update_2 : ConsensusUpdate) → MisbehaviourData
    next_sync_committee :
        (consensus_update_1 consensus_update_2 : ConsensusUpdate) → MisbehaviourData

  -- The source's field `data` is `evidence` here: `data` is a word of this language.
  pub record Misbehaviour : Type 0 where
    pub client_id : ClientId
    pub trusted_sync_committee : TrustedSyncCommittee
    pub evidence : MisbehaviourData

  -- `Misbehaviour::validate`
  unfoldable pub validate_misbehaviour : Misbehaviour → Outcome Error (Unit {0})
  validate_misbehaviour m = do
    try_with ethereum_light_client_types (trusted_sync_committee_validate m.trusted_sync_committee)
    ok tt
