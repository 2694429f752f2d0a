-- ===== src/Tests/Instances.antt =====
-- The crates of `Local` as the instance that the examples use.
use mathlib.Core.List.{List-discrete}
use native.Mathlib.Decide.{ℕ_discrete}
use ethereum_elc.Base.{
  ℕ, refl, ◌*◌, ◌/◌, String, Bool, not, List, [], ◌∷◌, map, Result, success, failure, ltb, leb,
  ◌==◌, if◌then◌else◌,
}
use ethereum_elc.Std.{Duration}
use ethereum_elc.External.{
  Crates, EthereumConsensus, LightClientVerifier, LightClientTypes, Framework,
}
use ethereum_elc.External.Proto.{IbcAny, RawFork}
use ethereum_elc.ConsensusState.Codec.{nanos_per_second}
use ethereum_elc.Tests.Instants.{Instant, instant, instant_dec, instant_from_parts}
use ethereum_elc.Tests.Local.{
  zeros, hash_from, first, string_dec, fraction_discrete, id_discrete, LocalFraction, LocalHeight,
  LocalContext, LocalCommittee, LocalUpdate, LocalExecution, fork_spec_all, nanos_after, check,
}

abbrev pub local_consensus : EthereumConsensus
local_consensus = record {
  H256 = ℕ;
  h256_dec = ℕ_discrete;
  h256_default = 0;
  h256_from_slice = hash_from;
  h256_as_bytes = λ h. h ∷ zeros;
  Address = ℕ;
  AddressError = Unit;
  address_dec = ℕ_discrete;
  address_default = 0;
  address_try_from = first;
  address_bytes = λ a. a ∷ [];
  address_error_debug = λ _. "no address";
  ConsensusError = Unit;
  PublicKey = ℕ;
  public_key_dec = ℕ_discrete;
  public_key_default = 0;
  public_key_try_from = first;
  public_key_to_vec = λ k. k ∷ [];
  Version = ℕ;
  version_bytes = λ v. v ∷ [];
  ForkSpec = Unit;
  finalized_root_gindex = fork_spec_all;
  current_sync_committee_gindex = fork_spec_all;
  next_sync_committee_gindex = fork_spec_all;
  execution_payload_gindex = fork_spec_all;
  execution_payload_state_root_gindex = fork_spec_all;
  execution_payload_block_number_gindex = fork_spec_all;
  execution_block_hash_gindex = fork_spec_all;
  ForkParameter = ℕ;
  fork_version = λ _. 1;
  fork_epoch = λ epoch. epoch;
  fork_spec = λ _. tt;
  ForkParameters = List ℕ;
  fork_parameters_dec = List-discrete ℕ_discrete;
  fork_parameters_default = [];
  genesis_version = λ _. 1;
  forks = λ f. f;
  bellatrix_index = 1;
}

abbrev pub local_fraction : ℕ → ℕ → Result (Unit {0}) LocalFraction
local_fraction n d =
    if d == 0 then failure tt else success (record { numerator = n; denominator = d })

abbrev pub local_verifier : LightClientVerifier local_consensus
local_verifier = record {
  VerifierError = Unit;
  Fraction = LocalFraction;
  fraction_dec = fraction_discrete;
  fraction_default = record { numerator = 0; denominator = 1 };
  fraction_new = local_fraction;
  fraction_numerator = λ f. f.numerator;
  fraction_denominator = λ f. f.denominator;
  Context = LocalContext;
  context_new = λ _ _ slots epochs _ _ _ _ _. record { slots_per_period = slots * epochs };
  compute_sync_committee_period_at_slot = λ context slot. slot / context.slots_per_period;
  ConsensusVerifier = Unit;
  consensus_verifier_default = tt;
  ExecutionVerifier = Unit;
  execution_verifier_default = tt;
}

abbrev pub local_types : LightClientTypes local_consensus local_verifier
local_types = record {
  LcTypesError = Unit;
  LcHeight = LocalHeight;
  lc_height_new = λ n b. record { number = n; block = b };
  lc_revision_number = λ h. h.number;
  lc_revision_height = λ h. h.block;
  SyncCommittee = ℕ;
  TrustedSyncCommittee = LocalCommittee;
  RawTrustedSyncCommittee = LocalCommittee;
  trusted_height = λ c. c.height;
  sync_committee = λ c. c.key;
  is_next = λ c. c.next;
  trusted_sync_committee_validate = λ c. check (not (c.key == 0));
  trusted_sync_committee_try_from = λ c. success c;
  trusted_sync_committee_into = λ c. c;
  ConsensusUpdate = LocalUpdate;
  RawConsensusUpdate = LocalUpdate;
  finalized_header_slot = λ u. u.slot;
  finalized_beacon_header_slot = λ u. u.slot;
  convert_proto_to_consensus_update = λ u. success u;
  convert_consensus_update_to_proto = λ u. success u;
  ExecutionUpdate = LocalExecution;
  RawExecutionUpdate = LocalExecution;
  convert_proto_to_execution_update = λ e. success e;
  state_root = λ e. e.root;
  block_number = λ e. e.block;
  execution_timestamp = λ e _ _. success (e.seconds * nanos_per_second);
  AccountUpdate = ℕ;
  RawAccountUpdate = ℕ;
  account_storage_root = λ root. root;
  account_update_try_from = λ root. success root;
  convert_proto_to_fork_parameters = λ raw. success (map (λ (f : RawFork). f.epoch) raw.forks);
  TrustedState = ℕ;
  SyncCommittees = ℕ × ℕ;
  current_committee = λ c. c.0;
  next_committee = λ c. c.1;
  verify_account_storage = λ _ root _ account. check (leb root account);
  validate_state_timestamp_within_trusting_period =
      λ now period nanos. check (ltb now (nanos_after nanos period));
  validate_header_timestamp_not_future =
      λ now drift nanos. check (ltb nanos (nanos_after now drift));
}

abbrev pub local_framework : Framework
local_framework = record {
  LcError = String;
  CommitmentError = Unit;
  TimeError = Unit;
  TypeError = Unit;
  DecodeError = Unit;
  EncodeError = Unit;
  Height = LocalHeight;
  height_new = λ n b. record { number = n; block = b };
  revision_number = λ h. h.number;
  revision_height = λ h. h.block;
  Time = Instant;
  time_dec = instant_dec;
  unix_epoch = record { nanos = 0; fits = refl };
  time_from_nanos = instant;
  time_from_unix = instant_from_parts;
  as_unix_timestamp_nanos = λ t. t.nanos;
  as_unix_timestamp_secs = λ t. t.nanos / nanos_per_second;
  ClientId = String;
  client_id_dec = string_dec;
  client_id_from_str = λ s. success s;
  client_id_as_str = λ c. c;
  Any = IbcAny;
  any_from = λ any. any;
  any_into = λ any. any;
  StateId = IbcAny × IbcAny;
  state_id_dec = id_discrete;
  gen_state_id_from_any = λ client consensus. success (client, consensus);
  TrustingPeriodContext = Unit;
  trusting_period_context_new = λ _ _ _ _. tt;
  MembershipMessage = IbcAny × IbcAny;
  MembershipValue = List ℕ;
  membership_message_new = λ _ _ _ _ id. id;
  ProxyMessage = Unit;
  UpdateClientResult = Bool;
  ProtoDuration = Duration;
  DurationError = Unit;
  duration_try_from = λ d. success d;
  duration_into = λ d. d;
}

instance abbrev pub local_crates : Crates
local_crates = record {
  consensus = local_consensus;
  verifier = local_verifier;
  types = local_types;
  framework = local_framework;
}
