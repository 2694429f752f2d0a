-- ===== src/ClientState/Checks.antt =====
-- light-client/src/client_state.rs: what `ClientState::validate` accepts and what it reports.
use ethereum_elc.Base.{◌<◌, ◌≤◌, ◌≡◌, ◌≢◌, ◌↔◌, ok, err, length, arith}
use ethereum_elc.Errors.{Error, uninitialized_client_state_field, missing_bellatrix_fork}
use ethereum_elc.Std.{duration_zero}
use ethereum_elc.External.{Crates}
use ethereum_elc.ClientState.{ClientState, validate_client_state}

module _ ⦃C : Crates⦄ where
  open C use {
    h256_default, fork_parameters_default, forks, bellatrix_index, address_default,
    fraction_default,
  }

  -- Every parameter of the client state that `validate` looks at has been set.
  pub record IsInitialized (s : ClientState) : Type 0 where
    pub root_set : s.genesis_validators_root ≢ h256_default
    pub participants_set : s.min_sync_committee_participants ≢ 0
    pub genesis_time_set : s.genesis_time ≢ 0
    pub fork_parameters_set : s.fork_parameters ≢ fork_parameters_default
    pub bellatrix_known : bellatrix_index < length (forks s.fork_parameters)
    pub seconds_per_slot_set : s.seconds_per_slot ≢ 0
    pub slots_per_epoch_set : s.slots_per_epoch ≢ 0
    pub epochs_set : s.epochs_per_sync_committee_period ≢ 0
    pub address_set : s.ibc_address ≢ address_default
    pub trust_level_set : s.trust_level ≢ fraction_default
    pub trusting_period_set : s.trusting_period ≢ duration_zero
    pub block_number_set : s.latest_execution_block_number ≢ 0

  -- validate accepts a client state exactly if all twelve conditions hold: the root, the
  -- participants, the genesis time, the fork parameters, the three period constants, the address,
  -- the trust level, the trusting period and the block number are set, and the fork parameters
  -- have the Bellatrix fork.
  pub validate_client_state-IsInitialized :
      (s : ClientState) → (validate_client_state s ≡ ok tt) ↔ IsInitialized s
  unfolding validate_client_state
  validate_client_state-IsInitialized s = (λ h. ground arith, λ h. ground arith)

  -- What an error of `validate` reports.
  pub data Reports (s : ClientState) : Error → Type 0 where
    root :
        s.genesis_validators_root ≡ h256_default
        → Reports s (uninitialized_client_state_field "genesis_validators_root")
    participants :
        s.min_sync_committee_participants ≡ 0
        → Reports s (uninitialized_client_state_field "min_sync_committee_participants")
    genesis_time : s.genesis_time ≡ 0 → Reports s (uninitialized_client_state_field "genesis_time")
    fork_parameters :
        s.fork_parameters ≡ fork_parameters_default
        → Reports s (uninitialized_client_state_field "fork_parameters")
    no_bellatrix :
        length (forks s.fork_parameters) ≤ bellatrix_index → Reports s missing_bellatrix_fork
    seconds_per_slot :
        s.seconds_per_slot ≡ 0 → Reports s (uninitialized_client_state_field "seconds_per_slot")
    slots_per_epoch :
        s.slots_per_epoch ≡ 0 → Reports s (uninitialized_client_state_field "slots_per_epoch")
    epochs :
        s.epochs_per_sync_committee_period ≡ 0
        → Reports s (uninitialized_client_state_field "epochs_per_sync_committee_period")
    address :
        s.ibc_address ≡ address_default → Reports s (uninitialized_client_state_field "ibc_address")
    trust_level :
        s.trust_level ≡ fraction_default
        → Reports s (uninitialized_client_state_field "trust_level")
    trusting_period :
        s.trusting_period ≡ duration_zero
        → Reports s (uninitialized_client_state_field "trusting_period")
    block_number :
        s.latest_execution_block_number ≡ 0
        → Reports s (uninitialized_client_state_field "latest_execution_block_number")

  pub validate_client_state-Reports :
      (s : ClientState) (e : Error) → validate_client_state s ≡ err e → Reports s e
  unfolding validate_client_state
  validate_client_state-Reports s e h = grind (
    arith, root, participants, genesis_time, fork_parameters, no_bellatrix, seconds_per_slot,
    slots_per_epoch, epochs, address, trust_level, trusting_period, block_number,
  )
