-- ===== src/Misbehaviour/Codec.antt =====
-- light-client/src/misbehaviour.rs: the conversions of misbehaviour from and to protobuf.
pub mod RoundTrip
use ethereum_elc.Base.{
  String, Outcome, ok, err, panic, some, Option, try_with, ok_or, expect, ◌>>=◌, ◌>>◌,
  if◌then◌else◌, str_eq, List, ℕ,
}
use ethereum_elc.External.{Crates}
use ethereum_elc.External.Proto.{IbcAny}
use ethereum_elc.Errors.{
  Error, proto_missing, ethereum_light_client_types, from_type_error, proto_decode,
  unknown_misbehaviour_type,
}
use ethereum_elc.Raw.{RawFinalizedHeaderMisbehaviour, RawNextSyncCommitteeMisbehaviour}
use ethereum_elc.Misbehaviour.{
  Misbehaviour, MisbehaviourData, finalized_header, next_sync_committee,
  ethereum_finalized_header_misbehaviour_type_url,
  ethereum_next_sync_committee_misbehaviour_type_url,
}
use ethereum_elc.Services.{Services}

module _ ⦃C : Crates⦄ where
  open C use {
    ClientId, ConsensusUpdate, TrustedSyncCommittee, RawTrustedSyncCommittee, RawConsensusUpdate,
    client_id_from_str, client_id_as_str, trusted_sync_committee_try_from,
    trusted_sync_committee_into, convert_proto_to_consensus_update,
    convert_consensus_update_to_proto,
  }

  -- A consensus update that must be present: `convert_proto_to_consensus_update(x.ok_or(..)?)?`
  required_update : Option RawConsensusUpdate → String → Outcome Error ConsensusUpdate
  required_update update field = do
    raw ← ok_or update (proto_missing field)
    try_with ethereum_light_client_types (convert_proto_to_consensus_update raw)

  required_committee : Option RawTrustedSyncCommittee → Outcome Error TrustedSyncCommittee
  required_committee committee = do
    raw ← ok_or committee (proto_missing "trusted_sync_committee")
    try_with ethereum_light_client_types (trusted_sync_committee_try_from raw)

  -- `TryFrom<RawFinalizedHeaderMisbehaviour> for Misbehaviour`
  unfoldable pub finalized_header_try_from :
      RawFinalizedHeaderMisbehaviour → Outcome Error Misbehaviour
  unfolding required_update required_committee
  finalized_header_try_from value = do
    client_id ← try_with from_type_error (client_id_from_str value.client_id)
    trusted_sync_committee ← required_committee value.trusted_sync_committee
    update_1 ← required_update value.consensus_update_1 "consensus_update_1"
    update_2 ← required_update value.consensus_update_2 "consensus_update_2"
    ok (record {
      client_id = client_id;
      trusted_sync_committee = trusted_sync_committee;
      evidence = finalized_header update_1 update_2;
    })

  -- `TryFrom<RawNextSyncCommitteeMisbehaviour> for Misbehaviour`
  unfoldable pub next_sync_committee_try_from :
      RawNextSyncCommitteeMisbehaviour → Outcome Error Misbehaviour
  unfolding required_update required_committee
  next_sync_committee_try_from value = do
    client_id ← try_with from_type_error (client_id_from_str value.client_id)
    trusted_sync_committee ← required_committee value.trusted_sync_committee
    update_1 ← required_update value.consensus_update_1 "consensus_update_1"
    update_2 ← required_update value.consensus_update_2 "consensus_update_2"
    ok (record {
      client_id = client_id;
      trusted_sync_committee = trusted_sync_committee;
      evidence = next_sync_committee update_1 update_2;
    })

  -- The bodies of the two conversions below, once the evidence is of their kind.
  finalized_header_from :
      Misbehaviour → MisbehaviourData → Outcome Error RawFinalizedHeaderMisbehaviour
  finalized_header_from value (finalized_header update_1 update_2) = do
    raw_1 ← expect (convert_consensus_update_to_proto update_1)
    raw_2 ← expect (convert_consensus_update_to_proto update_2)
    ok (record {
      client_id = client_id_as_str value.client_id;
      trusted_sync_committee = some (trusted_sync_committee_into value.trusted_sync_committee);
      consensus_update_1 = some raw_1;
      consensus_update_2 = some raw_2;
    })
  finalized_header_from value (next_sync_committee update_1 update_2) = panic

  next_sync_committee_from :
      Misbehaviour → MisbehaviourData → Outcome Error RawNextSyncCommitteeMisbehaviour
  next_sync_committee_from value (next_sync_committee update_1 update_2) = do
    raw_1 ← expect (convert_consensus_update_to_proto update_1)
    raw_2 ← expect (convert_consensus_update_to_proto update_2)
    ok (record {
      client_id = client_id_as_str value.client_id;
      trusted_sync_committee = some (trusted_sync_committee_into value.trusted_sync_committee);
      consensus_update_1 = some raw_1;
      consensus_update_2 = some raw_2;
    })
  next_sync_committee_from value (finalized_header update_1 update_2) = panic

  -- `From<Misbehaviour> for RawFinalizedHeaderMisbehaviour`
  unfoldable pub finalized_header_into : Misbehaviour → Outcome Error RawFinalizedHeaderMisbehaviour
  unfolding finalized_header_from
  finalized_header_into value = finalized_header_from value value.evidence

  -- `From<Misbehaviour> for RawNextSyncCommitteeMisbehaviour`
  unfoldable pub next_sync_committee_into :
      Misbehaviour → Outcome Error RawNextSyncCommitteeMisbehaviour
  unfolding next_sync_committee_from
  next_sync_committee_into value = next_sync_committee_from value value.evidence

  module _ ⦃S : Services⦄ where
    unfoldable pub decode_finalized_header_misbehaviour : List ℕ → Outcome Error Misbehaviour
    decode_finalized_header_misbehaviour buf = do
      message ← try_with proto_decode (S.decode_finalized_header buf)
      finalized_header_try_from message

    unfoldable pub decode_next_sync_committee_misbehaviour : List ℕ → Outcome Error Misbehaviour
    decode_next_sync_committee_misbehaviour buf = do
      message ← try_with proto_decode (S.decode_next_sync_committee buf)
      next_sync_committee_try_from message

    -- `TryFrom<IBCAny> for Misbehaviour`
    unfoldable pub misbehaviour_from_ibc : IbcAny → Outcome Error Misbehaviour
    unfolding decode_finalized_header_misbehaviour decode_next_sync_committee_misbehaviour
    misbehaviour_from_ibc raw =
        if str_eq raw.type_url ethereum_finalized_header_misbehaviour_type_url
        then decode_finalized_header_misbehaviour raw.value
        else if str_eq raw.type_url ethereum_next_sync_committee_misbehaviour_type_url
        then decode_next_sync_committee_misbehaviour raw.value
        else err (unknown_misbehaviour_type raw.type_url)
