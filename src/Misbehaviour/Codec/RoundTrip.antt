-- ===== src/Misbehaviour/Codec/RoundTrip.antt =====
-- light-client/src/misbehaviour.rs: reading misbehaviour from protobuf, and writing it back.
use ethereum_elc.Base.{◌≡◌, ok, success, arith}
use ethereum_elc.External.{Crates}
use ethereum_elc.Misbehaviour.{Misbehaviour}
use ethereum_elc.Misbehaviour.Codec.{
  finalized_header_try_from, finalized_header_into, next_sync_committee_try_from,
  next_sync_committee_into,
}
use ethereum_elc.Raw.{RawFinalizedHeaderMisbehaviour, RawNextSyncCommitteeMisbehaviour}

module _ ⦃C : Crates⦄ where
  open C use {
    ClientId, TrustedSyncCommittee, ConsensusUpdate, RawConsensusUpdate, client_id_from_str,
    client_id_as_str, trusted_sync_committee_try_from, trusted_sync_committee_into,
    convert_proto_to_consensus_update, convert_consensus_update_to_proto,
  }

  -- The conversions of the parts of a message read back what they wrote.
  pub record IsConvertible (m : Misbehaviour) : Type 0 where
    pub client_id : client_id_from_str (client_id_as_str m.client_id) ≡ success m.client_id
    pub committee :
        trusted_sync_committee_try_from (trusted_sync_committee_into m.trusted_sync_committee)
        ≡ success m.trusted_sync_committee
    pub update :
        (u : ConsensusUpdate) (raw : RawConsensusUpdate)
        → convert_consensus_update_to_proto u ≡ success raw
        → convert_proto_to_consensus_update raw ≡ success u

  pub finalized_header_try_from-into :
      (m : Misbehaviour) {raw : RawFinalizedHeaderMisbehaviour}
      → IsConvertible m
      → finalized_header_into m ≡ ok raw
      → finalized_header_try_from raw ≡ ok m
  unfolding finalized_header_try_from finalized_header_into
  finalized_header_try_from-into m c h = grind (arith, c.update)

  pub next_sync_committee_try_from-into :
      (m : Misbehaviour) {raw : RawNextSyncCommitteeMisbehaviour}
      → IsConvertible m
      → next_sync_committee_into m ≡ ok raw
      → next_sync_committee_try_from raw ≡ ok m
  unfolding next_sync_committee_try_from next_sync_committee_into
  next_sync_committee_try_from-into m c h = grind (arith, c.update)
