-- ===== src/Errors.antt =====
-- light-client/src/errors.rs: the errors of the client, and the conversions that `?` applies.
use ethereum_elc.Base.{ℕ, String}
use ethereum_elc.External.{Crates}

module _ ⦃C : Crates⦄ where
  open C use {
    ClientId, PublicKey, DecodeError, EncodeError, LcTypesError, ConsensusError, VerifierError,
    CommitmentError, TimeError, TypeError, LcError,
  }

  pub data Error : Type 0 where
    client_frozen : ClientId → Error
    cannot_initialize_frozen_client : Error
    uninitialized_client_state_field : String → Error
    missing_bellatrix_fork : Error
    missing_trusting_period : Error
    negative_max_clock_drift : Error
    unknown_client_state_type : String → Error
    unexpected_client_type : String → Error
    unexpected_store_address : String → Error
    uninitialized_consensus_state_field : String → Error
    invalid_raw_consensus_state : (reason : String) → Error
    invalid_raw_client_state : (reason : String) → Error
    unknown_consensus_state_type : (type_url : String) → Error
    invalid_current_sync_committee_keys : (expected actual : PublicKey) → Error
    invalid_next_sync_committee_keys : (expected actual : PublicKey) → Error
    timestamp_overflow : ℕ → Error
    unknown_message_type : String → Error
    unknown_header_type : (type_url : String) → Error
    zero_timestamp : Error
    zero_block_number : Error
    unexpected_timestamp : (expected actual : ℕ) → Error
    unknown_misbehaviour_type : (type_url : String) → Error
    unexpected_client_id_in_misbehaviour : (expected actual : ClientId) → Error
    proto_missing_field : String → Error
    proto_decode : DecodeError → Error
    proto_encode : EncodeError → Error
    ethereum_light_client_types : LcTypesError → Error
    ethereum_consensus : ConsensusError → Error
    verification : VerifierError → Error
    commitment : CommitmentError → Error
    time : TimeError → Error
    type_error : TypeError → Error
    light_client : LcError → Error

  abbrev pub proto_missing : String → Error
  proto_missing field = proto_missing_field field

  -- The conversions `From<_> for Error`, which `?` applies.
  abbrev pub from_time_error : TimeError → Error
  from_time_error e = time e

  abbrev pub from_consensus_error : ConsensusError → Error
  from_consensus_error e = ethereum_consensus e

  abbrev pub from_type_error : TypeError → Error
  from_type_error e = type_error e

  abbrev pub from_light_client_error : LcError → Error
  from_light_client_error e = light_client e
