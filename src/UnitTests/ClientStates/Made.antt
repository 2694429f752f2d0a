-- ===== src/UnitTests/ClientStates/Made.antt =====
-- light-client/src/client_state.rs, module `tests`: the client state of the tests is valid, and
-- can be written.
use ethereum_elc.Base.{◌≡◌, refl, none, [], ◌∷◌, ok, arith}
use ethereum_elc.External.{Crates}
use ethereum_elc.ClientState.{ClientState}
use ethereum_elc.ClientState.Checks.{IsInitialized}
use ethereum_elc.ClientState.Codec.RoundTrip.{IsRepresentable}
use ethereum_elc.Laws.{IsLawful}
use ethereum_elc.UnitTests.{replicate}
use ethereum_elc.UnitTests.States.{four_forks, test_client_state, create_test_client_state}
use ethereum_elc.UnitTests.Fixtures.{TestCrates, IsFixture}

module _ ⦃C : Crates⦄ (L : IsLawful) (T : TestCrates) (F : IsFixture T) where
  pub record IsTestState (s : ClientState) : Type 0 where
    pub initialized : IsInitialized s
    pub representable : IsRepresentable s
    pub unfrozen : s.frozen_height ≡ none

  pub create_test_client_state-IsTestState :
      (s : ClientState) × (create_test_client_state T ≡ ok s) × IsTestState s
  unfolding create_test_client_state four_forks
  create_test_client_state-IsTestState =
      let at_zero = F.fork_epoch-new in
      let (root, from_ones) = L.from_slice_total (replicate 32 1) refl in
      let (slot, from_twos) = L.from_slice_total (replicate 32 2) refl in
      let (level, is_level) = F.two_thirds in
      let (params, are_params) =
        F.fork_parameters_new_total (T.version (0 ∷ 0 ∷ 0 ∷ 1 ∷ [])) (four_forks T)
          (at_zero _ 0 _, (at_zero _ 0 _, (at_zero _ 0 _, (at_zero _ 0 _, tt)))) in
      let kept = F.forks-new _ _ params are_params in
      (
        test_client_state T root params slot level,
        rw (from_ones, are_params, from_twos, is_level) refl,
        record {
          initialized = record {
            root_set = F.ones-ne-default root from_ones;
            participants_set = omega arith;
            genesis_time_set = omega arith;
            fork_parameters_set = λ e. cc (kept, F.forks-default, e);
            bellatrix_known = rw (kept, F.second_fork) (omega arith);
            seconds_per_slot_set = F.seconds_positive;
            slots_per_epoch_set = F.slots_positive;
            epochs_set = F.epochs_positive;
            address_set = F.test_address-ne-default;
            trust_level_set = F.two_thirds-ne-default level is_level;
            trusting_period_set = λ h. cc h;
            block_number_set = omega arith;
          };
          representable = record {
            fork_parameters = F.fork_parameters_readable _ _ params are_params;
            trust_level = L.fraction_stable 2 3 level is_level;
            trusting_period = F.duration_written _ (omega arith);
            max_clock_drift = F.duration_written _ (omega arith);
            consensus_verifier = refl;
            execution_verifier = refl;
          };
          unfrozen = refl;
        },
      )
