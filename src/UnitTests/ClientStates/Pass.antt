-- ===== src/UnitTests/ClientStates/Pass.antt =====
-- light-client/src/client_state.rs: the module `tests`, all of it.
use ethereum_elc.Base.{◌≡◌, refl, List, [], ◌∷◌, ok}
use ethereum_elc.External.{Crates}
use ethereum_elc.Laws.{IsLawful, IsCodec}
use ethereum_elc.Services.{Services}
use ethereum_elc.Chain.Written.{IsWritable}
use ethereum_elc.UnitTests.{TestRun, run_tests}
use ethereum_elc.UnitTests.Fixtures.{TestCrates, IsFixture}
use ethereum_elc.UnitTests.ClientStates
use ethereum_elc.UnitTests.ClientStates.Methods
use ethereum_elc.UnitTests.ClientStates.Decoded

module _ ⦃C : Crates⦄ ⦃S : Services⦄ (T : TestCrates) where
  pub client_state_tests : List (TestRun (Unit {0}))
  client_state_tests =
      ClientStates.test_client_state_default T
      ∷ ClientStates.test_client_state_validate_default_fails T
      ∷ ClientStates.test_client_state_validate_success T
      ∷ ClientStates.test_client_state_is_frozen T
      ∷ ClientStates.test_client_state_latest_height T
      ∷ ClientStates.test_client_state_canonicalize T
      ∷ ClientStates.test_client_state_ibc_commitments_slot T
      ∷ ClientStates.test_ethereum_client_revision_number T
      ∷ ClientStates.test_client_state_validate_missing_min_sync_committee_participants T
      ∷ ClientStates.test_client_state_validate_missing_genesis_time T
      ∷ ClientStates.test_client_state_validate_missing_bellatrix_fork T
      ∷ ClientStates.test_client_state_proto_conversion T
      ∷ ClientStates.test_client_state_proto_conversion_ibc_any T
      ∷ ClientStates.test_client_state_from_any_unknown_type T
      ∷ ClientStates.test_client_state_build_context T
      ∷ ClientStates.test_client_state_try_from_invalid_genesis_validators_root_length T
      ∷ ClientStates.test_client_state_try_from_invalid_ibc_commitments_slot_length T
      ∷ ClientStates.test_client_state_with_frozen_height T
      ∷ []

  -- All eighteen tests of the module tests of client_state.rs pass, one after the other, without a
  -- panic of an assertion, an unwrap or an expect. This is for all crates that keep the
  -- assumptions of Laws, can write every state, and make the values of the tests.
  pub client_state_tests_pass :
      IsLawful → IsFixture T → IsCodec → IsWritable → run_tests client_state_tests ≡ ok tt
  unfolding client_state_tests
  client_state_tests_pass L F K W =
      rw
        (
          Methods.default_passes L T F,
          Methods.validate_default_passes L T F,
          Methods.validate_passes L T F,
          Methods.is_frozen_passes L T F,
          Methods.latest_height_passes L T F,
          Methods.canonicalize_passes L T F,
          Methods.ibc_commitments_slot_passes L T F,
          Methods.revision_number_passes L T F,
          Methods.missing_participants_passes L T F,
          Methods.missing_genesis_time_passes L T F,
          Methods.missing_bellatrix_passes L T F,
          Decoded.conversion_passes L T F K W,
          Decoded.conversion_ibc_any_passes L T F K W,
          Decoded.unknown_type_passes L T F K W,
          Methods.build_context_passes L T F,
          Decoded.invalid_root_passes L T F,
          Decoded.invalid_slot_passes L T F,
          Methods.with_frozen_height_passes L T F,
        )
        refl
