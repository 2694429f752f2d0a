-- ===== src/Laws.antt =====
-- What the theorems assume of the other crates: documented behaviour of their conversions. A
-- conversion that reads what the crate wrote gives the value back; slices of 32 bytes are hashes.
pub mod Forks
use ethereum_elc.Base.{ℕ, ◌*◌, ◌/◌, ◌%◌, ◌<◌, ◌≡◌, false, some, success, List, length}
use ethereum_elc.Std.{pos, i64_bound, Duration}
use ethereum_elc.External.{Crates}
use ethereum_elc.External.Proto.{IbcAny, ProtoForkParameters}
use ethereum_elc.Raw.{RawClientState, RawConsensusState}
use ethereum_elc.ConsensusState.{is_empty}
use ethereum_elc.ConsensusState.Codec.{nanos_per_second}
use ethereum_elc.Laws.Forks.{HasForkParameters}
use ethereum_elc.Services.{Services}

module _ ⦃C : Crates⦄ where
  open C use {
    H256, Address, PublicKey, Fraction, ForkParameters, ProtoDuration, Height, Time,
    h256_from_slice, h256_as_bytes, address_try_from, address_bytes, public_key_try_from,
    public_key_to_vec, fraction_new, fraction_numerator, fraction_denominator, duration_try_from,
    duration_into, convert_proto_to_fork_parameters, height_new, revision_number, revision_height,
    time_from_unix, as_unix_timestamp_nanos, any_from, any_into,
  }

  pub record IsLawful : Type 0 where
    -- `H256` is 32 bytes: `from_slice` takes every slice of that length, and only its length matters.
    pub from_slice_total : (b : List ℕ) → length b ≡ 32 → (h : H256) × (h256_from_slice b ≡ some h)
    pub from_slice-as_bytes : (h : H256) → h256_from_slice (h256_as_bytes h) ≡ some h
    pub length-as_bytes : (h : H256) → length (h256_as_bytes h) ≡ 32
    pub address-bytes : (a : Address) → address_try_from (address_bytes a) ≡ success a
    -- What was parsed is written in a form that parses to the same value.
    pub public_key_stable :
        (b : List ℕ) (k : PublicKey)
        → public_key_try_from b ≡ success k
        → public_key_try_from (public_key_to_vec k) ≡ success k
    -- A written key that parses gives that key.
    pub public_key_same :
        (k l : PublicKey) → public_key_try_from (public_key_to_vec k) ≡ success l → l ≡ k
    pub public_key_nonempty : (k : PublicKey) → is_empty (public_key_to_vec k) ≡ false
    pub fraction_stable :
        (n d : ℕ) (f : Fraction)
        → fraction_new n d ≡ success f
        → fraction_new (fraction_numerator f) (fraction_denominator f) ≡ success f
    pub duration_stable :
        (raw : ProtoDuration) (d : Duration)
        → duration_try_from raw ≡ success d
        → duration_try_from (duration_into d) ≡ success d
    -- Fork parameters that were read are read from every message that has their fields.
    pub fork_parameters_stable :
        (raw again : ProtoForkParameters) (f : ForkParameters)
        → convert_proto_to_fork_parameters raw ≡ success f
        → HasForkParameters again f
        → convert_proto_to_fork_parameters again ≡ success f
    pub height_eta : (h : Height) → height_new (revision_number h) (revision_height h) ≡ h
    pub revision_number-height_new : (n h : ℕ) → revision_number (height_new n h) ≡ n
    pub revision_height-height_new : (n h : ℕ) → revision_height (height_new n h) ≡ h
    -- Every `Time` is a whole second since the epoch that fits an `i64`, and nanoseconds.
    pub time_range : (t : Time) → as_unix_timestamp_nanos t < i64_bound * nanos_per_second
    pub time_from_parts :
        (t : Time)
        → time_from_unix
            (pos (as_unix_timestamp_nanos t / nanos_per_second))
            (as_unix_timestamp_nanos t % nanos_per_second)
          ≡ success t
    pub any_into-any_from : (raw : IbcAny) → any_into (any_from raw) ≡ raw

  -- `prost`: what was encoded decodes to the same message.
  pub record IsCodec ⦃S : Services⦄ : Type 0 where
    pub decode-encode_client_state :
        (m : RawClientState) (b : List ℕ)
        → S.encode_client_state m ≡ success b
        → S.decode_client_state b ≡ success m
    pub decode-encode_consensus_state :
        (m : RawConsensusState) (b : List ℕ)
        → S.encode_consensus_state m ≡ success b
        → S.decode_consensus_state b ≡ success m
