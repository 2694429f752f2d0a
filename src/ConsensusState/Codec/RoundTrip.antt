-- ===== src/ConsensusState/Codec/RoundTrip.antt =====
-- light-client/src/consensus_state.rs: reading a consensus state from protobuf and writing it back.
use ethereum_elc.Base.{ℕ, List, ◌*◌, ◌/◌, ◌%◌, ◌<◌, ◌≡◌, ◌≢◌, ok, panic, success, arith}
use ethereum_elc.Std.{pos, i64_bound}
use ethereum_elc.External.{Crates}
use ethereum_elc.Raw.{RawConsensusState}
use ethereum_elc.ConsensusState.{ConsensusState}
use ethereum_elc.ConsensusState.Codec.{
  ethereum_consensus_state_type_url, nanos_per_second, timestamp_to_proto_timestamp,
  consensus_state_try_from, consensus_state_into, consensus_state_from_any, consensus_state_to_any,
}
use ethereum_elc.Laws.{IsLawful, IsCodec}
use ethereum_elc.Services.{Services}

module _ ⦃C : Crates⦄ where
  open C use {Time, public_key_try_from, public_key_to_vec, as_unix_timestamp_nanos}

  -- Both keys are read back from what they are written as.
  pub record IsRepresentable (s : ConsensusState) : Type 0 where
    pub current_key :
        public_key_try_from (public_key_to_vec s.current_sync_committee)
        ≡ success s.current_sync_committee
    pub next_key :
        public_key_try_from (public_key_to_vec s.next_sync_committee)
        ≡ success s.next_sync_committee

  -- For a time of fewer nanoseconds since the epoch than 2^63 seconds have, the casts to i64 and
  -- i32 in timestamp_to_proto_timestamp lose nothing: the seconds and nanoseconds are the quotient
  -- and the remainder by 10^9, and neither is negative.
  pub timestamp_to_proto_timestamp-exact :
      (t : Time)
      → as_unix_timestamp_nanos t < i64_bound * nanos_per_second
      → (timestamp_to_proto_timestamp t).seconds
          ≡ pos (as_unix_timestamp_nanos t / nanos_per_second)
        × ((timestamp_to_proto_timestamp t).nanos
            ≡ pos (as_unix_timestamp_nanos t % nanos_per_second))
  unfolding timestamp_to_proto_timestamp
  timestamp_to_proto_timestamp-exact t h = (ground arith, ground arith)

module _ ⦃C : Crates⦄ (L : IsLawful) where
  open C use {Any, any_from, any_into, public_key_try_from}

  pub consensus_state_try_from_no_panic :
      (raw : RawConsensusState) → consensus_state_try_from raw ≢ panic
  unfolding consensus_state_try_from
  consensus_state_try_from_no_panic raw = ground (arith, L.from_slice_total raw.storage_root)

  pub consensus_state_try_from-IsRepresentable :
      (raw : RawConsensusState) {s : ConsensusState}
      → consensus_state_try_from raw ≡ ok s
      → IsRepresentable s
  unfolding consensus_state_try_from
  consensus_state_try_from-IsRepresentable raw h = grind (arith, L.public_key_stable)

  pub consensus_state_try_from-into :
      (s : ConsensusState)
      → IsRepresentable s
      → consensus_state_try_from (consensus_state_into s) ≡ ok s
  unfolding consensus_state_try_from consensus_state_into
  consensus_state_try_from-into s r = ground (
    arith,
    L.from_slice-as_bytes s.storage_root,
    L.length-as_bytes s.storage_root,
    L.public_key_nonempty s.next_sync_committee,
    L.time_range s.timestamp,
    L.time_from_parts s.timestamp,
  )

  keys_parsed :
      (raw : RawConsensusState) {t : ConsensusState}
      → consensus_state_try_from raw ≡ ok t
      → (public_key_try_from raw.current_sync_committee ≡ success t.current_sync_committee)
        × (public_key_try_from raw.next_sync_committee ≡ success t.next_sync_committee)
  unfolding consensus_state_try_from
  keys_parsed raw h = (ground arith, ground arith)

  -- A state that parses once it is written has keys that do.
  consensus_state_into-IsRepresentable :
      (s : ConsensusState) {t : ConsensusState}
      → consensus_state_try_from (consensus_state_into s) ≡ ok t
      → IsRepresentable s
  unfolding consensus_state_into
  consensus_state_into-IsRepresentable s h =
      let (current, next) = keys_parsed (consensus_state_into s) h in
      record {
        current_key = rw (L.public_key_same _ _ current) at current;
        next_key = rw (L.public_key_same _ _ next) at next;
      }

  module _ ⦃S : Services⦄ where
    consensus_state_from_any_parts :
        (any : Any) {s : ConsensusState}
        → consensus_state_from_any any ≡ ok s
        → (message : RawConsensusState) × (S.decode_consensus_state (any_into any).value
            ≡ success message)
          × (consensus_state_try_from message ≡ ok s)
    unfolding consensus_state_from_any
    consensus_state_from_any_parts any h = ground arith

    pub consensus_state_from_any-IsRepresentable :
        (any : Any) {s : ConsensusState} → consensus_state_from_any any ≡ ok s → IsRepresentable s
    consensus_state_from_any-IsRepresentable any h =
        let (message, _, e) = consensus_state_from_any_parts any h in
        consensus_state_try_from-IsRepresentable message e

    pub consensus_state_to_any_parts :
        (s : ConsensusState) {any : Any}
        → consensus_state_to_any s ≡ ok any
        → (bytes : List ℕ) × (S.encode_consensus_state (consensus_state_into s) ≡ success bytes)
          × (any
              ≡ any_from (record { type_url = ethereum_consensus_state_type_url; value = bytes }))
    unfolding consensus_state_to_any
    consensus_state_to_any_parts s h = ground arith

    -- If both keys of a consensus state parse once they are written, and consensus_state_to_any
    -- writes the state, then consensus_state_from_any reads what was written as the same state,
    -- the timestamp included. This is for crates that keep the assumptions of Laws.
    pub consensus_state_from_any-to_any :
        IsCodec
        → (s : ConsensusState) {any : Any} → IsRepresentable s
        → consensus_state_to_any s ≡ ok any
        → consensus_state_from_any any ≡ ok s
    unfolding consensus_state_from_any
    consensus_state_from_any-to_any K s r h =
        let (bytes, encoded, e) = consensus_state_to_any_parts s h in
        rw (e, L.any_into-any_from)
          (ground (
            arith,
            K.decode-encode_consensus_state (consensus_state_into s) bytes encoded,
            consensus_state_try_from-into s r,
          ))

    -- If consensus_state_to_any writes any consensus state and consensus_state_from_any reads what
    -- was written as some state, it is the one that was written. This is for crates that keep the
    -- assumptions of Laws.
    pub consensus_state_reread :
        IsCodec
        → (s : ConsensusState) {any : Any} {t : ConsensusState} → consensus_state_to_any s ≡ ok any
        → consensus_state_from_any any ≡ ok t
        → t ≡ s
    unfolding consensus_state_from_any
    consensus_state_reread K s {any} {t} written read =
        let (bytes, encoded, e) = consensus_state_to_any_parts s written in
        let (message, decoded, parsed) = consensus_state_from_any_parts any read in
        let same : message ≡ consensus_state_into s = ground (
          arith,
          L.any_into-any_from
              (record { type_url = ethereum_consensus_state_type_url; value = bytes }),
          K.decode-encode_consensus_state (consensus_state_into s) bytes encoded,
        ) in
        let again : consensus_state_try_from (consensus_state_into s) ≡ ok t = rw same at parsed in
        cc (again, consensus_state_try_from-into s (consensus_state_into-IsRepresentable s again))
