-- ===== src/ClientState.antt =====
-- light-client/src/client_state.rs: the client state, its checks and small methods.
pub mod Codec
pub mod Update
pub mod Checks
use ethereum_elc.Base.{
  ℕ, Bool, true, false, String, Option, none, some, List, Outcome, ok, err, ◌>>=◌, leb, ◌==◌,
  if◌then◌else◌, decided, length,
}
use ethereum_elc.Std.{Duration, duration_zero, duration_eq, as_usize}
use ethereum_elc.External.{Crates}
use ethereum_elc.Errors.{Error, uninitialized_client_state_field, missing_bellatrix_fork}

abbrev pub ethereum_client_revision_number : ℕ
ethereum_client_revision_number = 0

abbrev pub ethereum_client_state_type_url : String
ethereum_client_state_type_url = "/ibc.lightclients.ethereum.v1.ClientState"

module _ ⦃C : Crates⦄ where
  open C use {
    H256, Address, ForkParameters, Fraction, Height, LcHeight, Time, Context, ConsensusVerifier,
    ExecutionVerifier, h256_dec, h256_default, fork_parameters_dec, fork_parameters_default, forks,
    bellatrix_index, address_dec, address_default, fraction_dec, fraction_default,
    consensus_verifier_default, execution_verifier_default, lc_height_new, context_new,
    as_unix_timestamp_secs,
  }

  pub record ClientState : Type 0 where
    pub genesis_validators_root : H256
    pub min_sync_committee_participants : ℕ
    pub genesis_time : ℕ
    pub fork_parameters : ForkParameters
    pub seconds_per_slot : ℕ
    pub slots_per_epoch : ℕ
    pub epochs_per_sync_committee_period : ℕ
    pub ibc_address : Address
    pub ibc_commitments_slot : H256
    pub trust_level : Fraction
    pub trusting_period : Duration
    pub max_clock_drift : Duration
    pub latest_execution_block_number : ℕ
    pub frozen_height : Option Height
    pub consensus_verifier : ConsensusVerifier
    pub execution_verifier : ExecutionVerifier

  -- The derived `Default for ClientState`
  abbrev pub default_client_state : ClientState
  default_client_state = record {
    genesis_validators_root = h256_default;
    min_sync_committee_participants = 0;
    genesis_time = 0;
    fork_parameters = fork_parameters_default;
    seconds_per_slot = 0;
    slots_per_epoch = 0;
    epochs_per_sync_committee_period = 0;
    ibc_address = address_default;
    ibc_commitments_slot = h256_default;
    trust_level = fraction_default;
    trusting_period = duration_zero;
    max_clock_drift = duration_zero;
    latest_execution_block_number = 0;
    frozen_height = none;
    consensus_verifier = consensus_verifier_default;
    execution_verifier = execution_verifier_default;
  }

  abbrev pub latest_height : ClientState → LcHeight
  latest_height state =
      lc_height_new ethereum_client_revision_number state.latest_execution_block_number

  abbrev pub canonicalize : ClientState → ClientState
  canonicalize state = record state { latest_execution_block_number = 0; frozen_height = none }

  abbrev pub is_some {ℓ} : {A : Type ℓ} → Option A → Bool
  is_some (some a) = true
  is_some none = false

  abbrev pub is_frozen : ClientState → Bool
  is_frozen state = is_some state.frozen_height

  abbrev pub with_frozen_height : ClientState → Height → ClientState
  with_frozen_height state h = record state { frozen_height = some h }

  unfoldable pub build_context : ClientState → Time → Context
  build_context state current_timestamp =
      context_new state.fork_parameters state.seconds_per_slot state.slots_per_epoch
        state.epochs_per_sync_committee_period state.genesis_time state.genesis_validators_root
        (as_usize state.min_sync_committee_participants) state.trust_level
        (as_unix_timestamp_secs current_timestamp)

  -- `ClientState::validate`
  unfoldable pub validate_client_state : ClientState → Outcome Error (Unit {0})
  validate_client_state state =
      if decided (h256_dec state.genesis_validators_root h256_default)
      then err (uninitialized_client_state_field "genesis_validators_root")
      else if state.min_sync_committee_participants == 0
      then err (uninitialized_client_state_field "min_sync_committee_participants")
      else if state.genesis_time == 0
      then err (uninitialized_client_state_field "genesis_time")
      else if decided (fork_parameters_dec state.fork_parameters fork_parameters_default)
      then err (uninitialized_client_state_field "fork_parameters")
      else if leb (length (forks state.fork_parameters)) bellatrix_index
      then err missing_bellatrix_fork
      else if state.seconds_per_slot == 0
      then err (uninitialized_client_state_field "seconds_per_slot")
      else if state.slots_per_epoch == 0
      then err (uninitialized_client_state_field "slots_per_epoch")
      else if state.epochs_per_sync_committee_period == 0
      then err (uninitialized_client_state_field "epochs_per_sync_committee_period")
      else if decided (address_dec state.ibc_address address_default)
      then err (uninitialized_client_state_field "ibc_address")
      else if decided (fraction_dec state.trust_level fraction_default)
      then err (uninitialized_client_state_field "trust_level")
      else if duration_eq state.trusting_period duration_zero
      then err (uninitialized_client_state_field "trusting_period")
      else if state.latest_execution_block_number == 0
      then err (uninitialized_client_state_field "latest_execution_block_number")
      else ok tt
