-- ===== src/ClientState/Codec.antt =====
-- light-client/src/client_state.rs: the conversions of a client state from and to protobuf.
pub mod RoundTrip
use ethereum_elc.Base.{
  ℕ, String, ◌<>◌, some, Outcome, ok, err, Option, none, try_with, ok_or, unwrap, reject_if, ◌>>=◌,
  ◌>>◌, not, ◌==◌, length, if◌then◌else◌, str_eq, List, map,
}
use mathlib.Core.Option
use ethereum_elc.Std.{show_ℕ}
use ethereum_elc.External.{Crates}
use ethereum_elc.External.Proto.{IbcAny, ProtoHeight, ProtoForkParameters, RawFork}
use ethereum_elc.Errors.{
  Error, proto_missing, ethereum_light_client_types, invalid_raw_client_state,
  unexpected_store_address, verification, missing_trusting_period, negative_max_clock_drift,
  proto_decode, proto_encode, unknown_client_state_type,
}
use ethereum_elc.Raw.{RawClientState}
use ethereum_elc.ClientState.{ClientState, ethereum_client_state_type_url}
use ethereum_elc.Services.{Services}

module _ ⦃C : Crates⦄ where
  open C use {
    ForkParameter, ForkParameters, ForkSpec, Version, Height, Any, convert_proto_to_fork_parameters,
    height_new, h256_from_slice, h256_as_bytes, address_try_from, address_bytes,
    address_error_debug, fraction_new, fraction_numerator, fraction_denominator, duration_try_from,
    duration_into, consensus_verifier_default, execution_verifier_default, version_bytes,
    fork_version, fork_epoch, fork_spec, genesis_version, forks, revision_number, revision_height,
    any_from, any_into, finalized_root_gindex, current_sync_committee_gindex,
    next_sync_committee_gindex, execution_payload_gindex, execution_payload_state_root_gindex,
    execution_payload_block_number_gindex, execution_block_hash_gindex,
  }

  -- `TryFrom<RawClientState> for ClientState`
  unfoldable pub client_state_try_from : RawClientState → Outcome Error ClientState
  client_state_try_from value = do
    raw_fork_parameters ← ok_or value.fork_parameters (proto_missing "fork_parameters")
    fork_parameters ←
        try_with ethereum_light_client_types (convert_proto_to_fork_parameters raw_fork_parameters)
    raw_trust_level ← ok_or value.trust_level (proto_missing "trust_level")
    let frozen_height =
        Option.map (λ (h : ProtoHeight). height_new h.revision_number h.revision_height)
          value.frozen_height
    reject_if (not (length value.genesis_validators_root == 32)) (
        invalid_raw_client_state (
          "invalid genesis_validators_root length: "
          <> show_ℕ (length value.genesis_validators_root)))
    reject_if (not (length value.ibc_commitments_slot == 32)) (
        invalid_raw_client_state
          ("invalid ibc_commitments_slot length: " <> show_ℕ (length value.ibc_commitments_slot)))
    genesis_validators_root ← unwrap (h256_from_slice value.genesis_validators_root)
    ibc_address ←
        try_with (λ e. unexpected_store_address (address_error_debug e))
          (address_try_from value.ibc_address)
    ibc_commitments_slot ← unwrap (h256_from_slice value.ibc_commitments_slot)
    trust_level ←
        try_with verification (fraction_new raw_trust_level.numerator raw_trust_level.denominator)
    raw_trusting_period ← ok_or value.trusting_period missing_trusting_period
    trusting_period ←
        try_with (λ _. missing_trusting_period) (duration_try_from raw_trusting_period)
    raw_max_clock_drift ← ok_or value.max_clock_drift negative_max_clock_drift
    max_clock_drift ←
        try_with (λ _. negative_max_clock_drift) (duration_try_from raw_max_clock_drift)
    ok (record {
      genesis_validators_root = genesis_validators_root;
      min_sync_committee_participants = value.min_sync_committee_participants;
      genesis_time = value.genesis_time;
      fork_parameters = fork_parameters;
      seconds_per_slot = value.seconds_per_slot;
      slots_per_epoch = value.slots_per_epoch;
      epochs_per_sync_committee_period = value.epochs_per_sync_committee_period;
      ibc_address = ibc_address;
      ibc_commitments_slot = ibc_commitments_slot;
      trust_level = trust_level;
      trusting_period = trusting_period;
      max_clock_drift = max_clock_drift;
      latest_execution_block_number = value.latest_execution_block_number;
      frozen_height = frozen_height;
      consensus_verifier = consensus_verifier_default;
      execution_verifier = execution_verifier_default;
    })

  -- `make_fork`, with `version_to_bytes`.
  unfoldable pub make_fork : Version → ℕ → ForkSpec → RawFork
  make_fork version epoch spec = record {
    version = version_bytes version;
    epoch = epoch;
    spec = some (record {
      finalized_root_gindex = finalized_root_gindex spec;
      current_sync_committee_gindex = current_sync_committee_gindex spec;
      next_sync_committee_gindex = next_sync_committee_gindex spec;
      execution_payload_gindex = execution_payload_gindex spec;
      execution_payload_state_root_gindex = execution_payload_state_root_gindex spec;
      execution_payload_block_number_gindex = execution_payload_block_number_gindex spec;
      execution_block_hash_gindex = execution_block_hash_gindex spec;
    });
  }

  -- The `ProtoForkParameters` of `From<ClientState> for RawClientState`.
  unfoldable pub fork_parameters_into : ForkParameters → ProtoForkParameters
  unfolding make_fork
  fork_parameters_into fork_parameters = record {
    genesis_fork_version = version_bytes (genesis_version fork_parameters);
    forks =
        map (λ (f : ForkParameter). make_fork (fork_version f) (fork_epoch f) (fork_spec f))
          (forks fork_parameters);
  }

  -- `From<ClientState> for RawClientState`
  unfoldable pub client_state_into : ClientState → RawClientState
  client_state_into value = record {
    genesis_validators_root = h256_as_bytes value.genesis_validators_root;
    min_sync_committee_participants = value.min_sync_committee_participants;
    genesis_time = value.genesis_time;
    fork_parameters = some (fork_parameters_into value.fork_parameters);
    seconds_per_slot = value.seconds_per_slot;
    slots_per_epoch = value.slots_per_epoch;
    epochs_per_sync_committee_period = value.epochs_per_sync_committee_period;
    ibc_address = address_bytes value.ibc_address;
    ibc_commitments_slot = h256_as_bytes value.ibc_commitments_slot;
    trust_level = some (record {
      numerator = fraction_numerator value.trust_level;
      denominator = fraction_denominator value.trust_level;
    });
    trusting_period = some (duration_into value.trusting_period);
    max_clock_drift = some (duration_into value.max_clock_drift);
    latest_execution_block_number = value.latest_execution_block_number;
    frozen_height =
        Option.map
          (λ (h : Height).
            let raw : ProtoHeight = record {
              revision_number = revision_number h;
              revision_height = revision_height h;
            } in
            raw)
          value.frozen_height;
  }

  module _ ⦃S : Services⦄ where
    -- `TryFrom<IBCAny> for ClientState`
    unfoldable pub client_state_from_ibc : IbcAny → Outcome Error ClientState
    client_state_from_ibc any =
        if not (str_eq any.type_url ethereum_client_state_type_url)
        then err (unknown_client_state_type any.type_url)
        else do
          message ← try_with proto_decode (S.decode_client_state any.value)
          client_state_try_from message

    -- `TryFrom<ClientState> for IBCAny`
    unfoldable pub client_state_to_ibc : ClientState → Outcome Error IbcAny
    client_state_to_ibc value = do
      bytes ← try_with proto_encode (S.encode_client_state (client_state_into value))
      ok (record { type_url = ethereum_client_state_type_url; value = bytes })

    -- `TryFrom<ClientState> for Any`
    unfoldable pub client_state_to_any : ClientState → Outcome Error Any
    unfolding client_state_to_ibc
    client_state_to_any value = do raw ← client_state_to_ibc value; ok (any_from raw)

    -- `TryFrom<Any> for ClientState`
    unfoldable pub client_state_from_any : Any → Outcome Error ClientState
    unfolding client_state_from_ibc
    client_state_from_any any = client_state_from_ibc (any_into any)
