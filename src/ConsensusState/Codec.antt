-- ===== src/ConsensusState/Codec.antt =====
-- light-client/src/consensus_state.rs: the conversions of a consensus state from and to protobuf.
pub mod RoundTrip
use ethereum_elc.Base.{
  ℕ, ◌/◌, ◌%◌, String, ◌<>◌, some, Outcome, ok, err, Option, none, try_with, ok_or, unwrap,
  reject_if, ◌>>=◌, ◌>>◌, not, ◌==◌, length, Bool, if◌then◌else◌, str_eq, List,
}
use ethereum_elc.Std.{ℤ, as_i64, as_i32, u32_try_from, show_ℕ, show_ℤ}
use ethereum_elc.External.{Crates}
use ethereum_elc.External.Proto.{ProtoTimestamp, IbcAny}
use ethereum_elc.Errors.{
  Error, from_consensus_error, from_time_error, invalid_raw_consensus_state, proto_decode,
  proto_encode, unknown_consensus_state_type,
}
use ethereum_elc.Raw.{RawConsensusState}
use ethereum_elc.ConsensusState.{ConsensusState, is_empty}
use ethereum_elc.Services.{Services}

abbrev pub ethereum_consensus_state_type_url : String
ethereum_consensus_state_type_url = "/ibc.lightclients.ethereum.v1.ConsensusState"

abbrev pub nanos_per_second : ℕ
nanos_per_second = 1000000000

module _ ⦃C : Crates⦄ where
  open C use {
    Time, Any, as_unix_timestamp_nanos, public_key_try_from, public_key_to_vec, h256_from_slice,
    h256_as_bytes, time_from_unix, any_from, any_into,
  }

  unfoldable pub timestamp_to_proto_timestamp : Time → ProtoTimestamp
  timestamp_to_proto_timestamp timestamp =
      let nanos = as_unix_timestamp_nanos timestamp in
      record {
        seconds = as_i64 (nanos / nanos_per_second);
        nanos = as_i32 (nanos % nanos_per_second);
      }

  -- `TryFrom<RawConsensusState> for ConsensusState`
  unfoldable pub consensus_state_try_from : RawConsensusState → Outcome Error ConsensusState
  consensus_state_try_from value = do
    reject_if (is_empty value.next_sync_committee)
        (invalid_raw_consensus_state "next_sync_committee is empty")
    next_sync_committee ←
        try_with from_consensus_error (public_key_try_from value.next_sync_committee)
    timestamp ← ok_or value.timestamp (invalid_raw_consensus_state "timestamp is none")
    reject_if (not (length value.storage_root == 32)) (
        invalid_raw_consensus_state
          ("invalid storage_root length: " <> show_ℕ (length value.storage_root)))
    nanos ←
        ok_or (u32_try_from timestamp.nanos)
          (invalid_raw_consensus_state ("invalid timestamp nanos: " <> show_ℤ timestamp.nanos))
    storage_root ← unwrap (h256_from_slice value.storage_root)
    instant ← try_with from_time_error (time_from_unix timestamp.seconds nanos)
    current_sync_committee ←
        try_with from_consensus_error (public_key_try_from value.current_sync_committee)
    ok (record {
      slot = value.slot;
      storage_root = storage_root;
      timestamp = instant;
      current_sync_committee = current_sync_committee;
      next_sync_committee = next_sync_committee;
    })

  -- `From<ConsensusState> for RawConsensusState`
  unfoldable pub consensus_state_into : ConsensusState → RawConsensusState
  unfolding timestamp_to_proto_timestamp
  consensus_state_into value = record {
    slot = value.slot;
    storage_root = h256_as_bytes value.storage_root;
    timestamp = some (timestamp_to_proto_timestamp value.timestamp);
    current_sync_committee = public_key_to_vec value.current_sync_committee;
    next_sync_committee = public_key_to_vec value.next_sync_committee;
  }

  module _ ⦃S : Services⦄ where
    unfoldable pub decode_consensus_state : List ℕ → Outcome Error ConsensusState
    decode_consensus_state buf = do
      message ← try_with proto_decode (S.decode_consensus_state buf)
      consensus_state_try_from message

    -- `TryFrom<IBCAny> for ConsensusState`
    unfoldable pub consensus_state_from_ibc : IbcAny → Outcome Error ConsensusState
    unfolding decode_consensus_state
    consensus_state_from_ibc raw =
        if str_eq raw.type_url ethereum_consensus_state_type_url
        then decode_consensus_state raw.value
        else err (unknown_consensus_state_type raw.type_url)

    -- `TryFrom<ConsensusState> for IBCAny`
    unfoldable pub consensus_state_to_ibc : ConsensusState → Outcome Error IbcAny
    consensus_state_to_ibc value = do
      bytes ← try_with proto_encode (S.encode_consensus_state (consensus_state_into value))
      ok (record { type_url = ethereum_consensus_state_type_url; value = bytes })

    -- `TryFrom<ConsensusState> for Any`
    unfoldable pub consensus_state_to_any : ConsensusState → Outcome Error Any
    unfolding consensus_state_to_ibc
    consensus_state_to_any value = do raw ← consensus_state_to_ibc value; ok (any_from raw)

    -- `TryFrom<Any> for ConsensusState`
    unfoldable pub consensus_state_from_any : Any → Outcome Error ConsensusState
    unfolding consensus_state_from_ibc
    consensus_state_from_any any = consensus_state_from_ibc (any_into any)
