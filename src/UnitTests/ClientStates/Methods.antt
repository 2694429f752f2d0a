-- ===== src/UnitTests/ClientStates/Methods.antt =====
-- light-client/src/client_state.rs, module `tests`: the tests of `validate` and of the small
-- methods.
use native.Mathlib.Decide.{ℕ_discrete}
use ethereum_elc.Base.{◌≡◌, refl, none, [], ◌∷◌, ok, arith}
use ethereum_elc.External.{Crates}
use ethereum_elc.ClientState.{validate_client_state}
use ethereum_elc.ClientState.Checks.{validate_client_state-IsInitialized}
use ethereum_elc.Laws.{IsLawful}
use ethereum_elc.UnitTests.{replicate, decided_self}
use ethereum_elc.UnitTests.States.{frozen_height_dec}
use ethereum_elc.UnitTests.Fixtures.{TestCrates, IsFixture}
use ethereum_elc.UnitTests.ClientStates.{
  test_client_state_default, test_client_state_validate_default_fails,
  test_client_state_validate_success, test_client_state_is_frozen, test_client_state_latest_height,
  test_client_state_canonicalize, test_client_state_ibc_commitments_slot,
  test_ethereum_client_revision_number,
  test_client_state_validate_missing_min_sync_committee_participants,
  test_client_state_validate_missing_genesis_time,
  test_client_state_validate_missing_bellatrix_fork, test_client_state_build_context,
  test_client_state_with_frozen_height,
}
use ethereum_elc.UnitTests.ClientStates.Made.{create_test_client_state-IsTestState}

module _ ⦃C : Crates⦄ (L : IsLawful) (T : TestCrates) (F : IsFixture T) where
  pub default_passes : test_client_state_default T ≡ ok tt
  unfolding test_client_state_default
  default_passes =
      rw (decided_self C.h256_dec C.h256_default)
        (rw (decided_self ℕ_discrete 0, decided_self (frozen_height_dec T) none) refl)

  pub validate_default_passes : test_client_state_validate_default_fails T ≡ ok tt
  unfolding test_client_state_validate_default_fails validate_client_state
  validate_default_passes = rw (decided_self C.h256_dec C.h256_default) refl

  pub validate_passes : test_client_state_validate_success T ≡ ok tt
  unfolding test_client_state_validate_success
  validate_passes =
      let (s, e, t) = create_test_client_state-IsTestState L T F in
      rw (e, (validate_client_state-IsInitialized s).1 t.initialized) refl

  pub is_frozen_passes : test_client_state_is_frozen T ≡ ok tt
  unfolding test_client_state_is_frozen
  is_frozen_passes = rw (decided_self (frozen_height_dec T) _)

  pub latest_height_passes : test_client_state_latest_height T ≡ ok tt
  unfolding test_client_state_latest_height
  latest_height_passes =
      rw
        (
          F.lc_revision_number-new 0 12345,
          F.lc_revision_height-new 0 12345,
          decided_self ℕ_discrete 0,
          decided_self ℕ_discrete 12345,
        )
        refl

  pub build_context_passes : test_client_state_build_context T ≡ ok tt
  unfolding test_client_state_build_context
  build_context_passes =
      let (s, e, t) = create_test_client_state-IsTestState L T F in
      let (now, f, _) = F.time_from_nanos_total 1000000000000000000 (omega arith) in rw (e, f) refl

  pub missing_genesis_time_passes : test_client_state_validate_missing_genesis_time T ≡ ok tt
  unfolding test_client_state_validate_missing_genesis_time validate_client_state
  missing_genesis_time_passes =
      let (root, from_ones) = L.from_slice_total (replicate 32 1) refl in
      rw from_ones (ground (arith, F.ones-ne-default root from_ones))

  pub canonicalize_passes : test_client_state_canonicalize T ≡ ok tt
  unfolding test_client_state_canonicalize
  canonicalize_passes = rw (decided_self ℕ_discrete 0, decided_self (frozen_height_dec T) none) refl

  pub ibc_commitments_slot_passes : test_client_state_ibc_commitments_slot T ≡ ok tt
  unfolding test_client_state_ibc_commitments_slot
  ibc_commitments_slot_passes =
      let (slot, e) = L.from_slice_total (replicate 32 0xab) refl in
      rw (e, decided_self C.h256_dec slot) refl

  pub revision_number_passes : test_ethereum_client_revision_number T ≡ ok tt
  unfolding test_ethereum_client_revision_number
  revision_number_passes = rw (decided_self ℕ_discrete 0) refl

  pub missing_participants_passes :
      test_client_state_validate_missing_min_sync_committee_participants T ≡ ok tt
  unfolding test_client_state_validate_missing_min_sync_committee_participants validate_client_state
  missing_participants_passes =
      let (root, from_ones) = L.from_slice_total (replicate 32 1) refl in
      rw from_ones (ground (arith, F.ones-ne-default root from_ones))

  pub missing_bellatrix_passes : test_client_state_validate_missing_bellatrix_fork T ≡ ok tt
  unfolding test_client_state_validate_missing_bellatrix_fork validate_client_state
  missing_bellatrix_passes =
      let (root, from_ones) = L.from_slice_total (replicate 32 1) refl in
      let v = T.version (0 ∷ 0 ∷ 0 ∷ 1 ∷ []) in
      let fs = T.fork_parameter_new (T.version (1 ∷ 0 ∷ 0 ∷ 1 ∷ [])) 0 T.altair_fork_spec ∷ [] in
      let (params, are_params) = F.fork_parameters_new_total v fs (F.fork_epoch-new _ 0 _, tt) in
      let kept = F.forks-new v fs params are_params in
      rw (from_ones, are_params)
        (ground (arith, F.ones-ne-default root from_ones, kept, F.forks-default, F.second_fork))

  pub with_frozen_height_passes : test_client_state_with_frozen_height T ≡ ok tt
  unfolding test_client_state_with_frozen_height
  with_frozen_height_passes =
      let (s, e, t) = create_test_client_state-IsTestState L T F in
      rw (e, t.unfrozen, decided_self (frozen_height_dec T) _) refl
