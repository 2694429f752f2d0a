-- ===== src/Header/Codec.antt =====
-- light-client/src/header.rs: the conversions of a header and of a client message.
pub mod Kinds
use ethereum_elc.Base.{
  String, Outcome, ok, err, Option, try_with, ok_or, ◌>>=◌, ◌>>◌, ◌||◌, if◌then◌else◌, str_eq, List,
  ℕ,
}
use ethereum_elc.External.{Crates}
use ethereum_elc.External.Proto.{IbcAny}
use ethereum_elc.Errors.{
  Error, proto_missing, ethereum_light_client_types, proto_decode, unknown_header_type,
  unknown_message_type,
}
use ethereum_elc.Raw.{RawHeader}
use ethereum_elc.Header.{Header, ClientMessage, header, misbehaviour, ethereum_header_type_url}
use ethereum_elc.Misbehaviour.{
  ethereum_finalized_header_misbehaviour_type_url,
  ethereum_next_sync_committee_misbehaviour_type_url,
}
use ethereum_elc.Misbehaviour.Codec.{misbehaviour_from_ibc}
use ethereum_elc.Services.{Services}

module _ ⦃C : Crates⦄ where
  open C use {
    trusted_sync_committee_try_from, convert_proto_to_consensus_update,
    convert_proto_to_execution_update, account_update_try_from,
  }

  -- `TryFrom<RawHeader> for Header`
  unfoldable pub header_try_from : RawHeader → Outcome Error Header
  header_try_from value = do
    raw_trusted_sync_committee ←
        ok_or value.trusted_sync_committee (proto_missing "trusted_sync_committee")
    raw_consensus_update ← ok_or value.consensus_update (proto_missing "consensus_update")
    raw_execution_update ← ok_or value.execution_update (proto_missing "execution_update")
    raw_account_update ← ok_or value.account_update (proto_missing "account_update")
    trusted_sync_committee ←
        try_with ethereum_light_client_types
          (trusted_sync_committee_try_from raw_trusted_sync_committee)
    consensus_update ←
        try_with ethereum_light_client_types
          (convert_proto_to_consensus_update raw_consensus_update)
    execution_update ←
        try_with ethereum_light_client_types
          (convert_proto_to_execution_update raw_execution_update)
    account_update ←
        try_with ethereum_light_client_types (account_update_try_from raw_account_update)
    ok (record {
      trusted_sync_committee = trusted_sync_committee;
      consensus_update = consensus_update;
      execution_update = execution_update;
      account_update = account_update;
    })

  module _ ⦃S : Services⦄ where
    unfoldable pub decode_header : List ℕ → Outcome Error Header
    unfolding header_try_from
    decode_header buf = do
      message ← try_with proto_decode (S.decode_header buf)
      header_try_from message

    -- `TryFrom<IBCAny> for Header`
    unfoldable pub header_from_ibc : IbcAny → Outcome Error Header
    unfolding decode_header
    header_from_ibc raw =
        if str_eq raw.type_url ethereum_header_type_url
        then decode_header raw.value
        else err (unknown_header_type raw.type_url)

    -- `TryFrom<IBCAny> for ClientMessage`
    unfoldable pub client_message_from_ibc : IbcAny → Outcome Error ClientMessage
    client_message_from_ibc raw =
        if str_eq raw.type_url ethereum_header_type_url
        then (do h ← header_from_ibc raw; ok (header h))
        else if str_eq raw.type_url ethereum_finalized_header_misbehaviour_type_url
            || str_eq raw.type_url ethereum_next_sync_committee_misbehaviour_type_url
        then (do m ← misbehaviour_from_ibc raw; ok (misbehaviour m))
        else err (unknown_message_type raw.type_url)
