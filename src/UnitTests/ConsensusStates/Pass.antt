-- ===== src/UnitTests/ConsensusStates/Pass.antt =====
-- light-client/src/consensus_state.rs: the module `tests` passes.
use native.Mathlib.Decide.{ℕ_discrete}
use ethereum_elc.Base.{ℕ, ◌==◌, ◌≡◌, refl, false, List, [], ◌∷◌, ok, length, arith}
use ethereum_elc.External.{Crates}
use ethereum_elc.External.Proto.{IbcAny}
use ethereum_elc.ConsensusState.{ConsensusState, default_consensus_state, validate_consensus_state}
use ethereum_elc.ConsensusState.Codec.{
  consensus_state_to_ibc, consensus_state_from_ibc, consensus_state_into, consensus_state_try_from,
  ethereum_consensus_state_type_url,
}
use ethereum_elc.ConsensusState.Codec.RoundTrip.{
  IsRepresentable, consensus_state_try_from-into, consensus_state_from_any-to_any,
}
use ethereum_elc.Laws.{IsLawful, IsCodec}
use ethereum_elc.Chain.Written.{IsWritable, consensus_state_to_any_total}
use ethereum_elc.Services.{Services}
use ethereum_elc.UnitTests.{TestRun, replicate, decided_self, run_tests}
use ethereum_elc.UnitTests.States.{consensus_state_dec}
use ethereum_elc.UnitTests.Fixtures.{TestCrates, IsFixture}
use ethereum_elc.UnitTests.ConsensusStates.{
  assert_invalid, test_consensus_state_default, test_consensus_state_validate_default_fails,
  test_consensus_state_validate_success, test_consensus_state_validate_missing_slot,
  test_consensus_state_validate_missing_timestamp,
  test_consensus_state_validate_missing_current_sync_committee,
  test_consensus_state_validate_missing_next_sync_committee, test_consensus_state_proto_conversion,
  test_consensus_state_proto_conversion_ibc_any, test_consensus_state_from_any_unknown_type,
  test_consensus_state_storage_root, test_timestamp_to_proto_and_back,
  test_consensus_state_try_from_invalid_storage_root_length,
}
use ethereum_elc.UnitTests.ConsensusStates.Made.{
  h256_nonempty, create_test_consensus_state-IsRepresentable,
}

module _ ⦃C : Crates⦄ ⦃S : Services⦄ where
  pub consensus_state_tests : List (TestRun (Unit {0}))
  consensus_state_tests =
      test_consensus_state_default ∷ test_consensus_state_validate_default_fails
      ∷ test_consensus_state_validate_success ∷ test_consensus_state_validate_missing_slot
      ∷ test_consensus_state_validate_missing_timestamp
      ∷ test_consensus_state_validate_missing_current_sync_committee
      ∷ test_consensus_state_validate_missing_next_sync_committee
      ∷ test_consensus_state_proto_conversion ∷ test_consensus_state_proto_conversion_ibc_any
      ∷ test_consensus_state_from_any_unknown_type ∷ test_consensus_state_storage_root
      ∷ test_timestamp_to_proto_and_back ∷ test_consensus_state_try_from_invalid_storage_root_length
      ∷ []

module _ ⦃C : Crates⦄ (L : IsLawful) (T : TestCrates) (F : IsFixture T) where
  open C use {
    H256, PublicKey, Time, public_key_default, public_key_dec, h256_dec, h256_default, time_dec,
    h256_from_slice, h256_as_bytes, as_unix_timestamp_nanos, time_from_nanos, public_key_try_from,
  }

  default_passes : test_consensus_state_default ≡ ok tt
  unfolding test_consensus_state_default default_consensus_state
  default_passes =
      let (epoch, from_nanos, nanos) = F.time_from_nanos_total 0 (omega arith) in
      rw
        (
          from_nanos,
          nanos,
          decided_self ℕ_discrete 0,
          decided_self h256_dec h256_default,
          decided_self public_key_dec public_key_default,
        )
        refl

  validate_default_passes : test_consensus_state_validate_default_fails ≡ ok tt
  unfolding test_consensus_state_validate_default_fails default_consensus_state
      validate_consensus_state
  validate_default_passes =
      let (epoch, from_nanos, _) = F.time_from_nanos_total 0 (omega arith) in rw from_nanos refl

  validate_passes : test_consensus_state_validate_success ≡ ok tt
  unfolding test_consensus_state_validate_success
  validate_passes =
      let (s, made, _, valid) = create_test_consensus_state-IsRepresentable L T F in
      rw (made, valid) refl

  missing_slot_passes : test_consensus_state_validate_missing_slot ≡ ok tt
  unfolding test_consensus_state_validate_missing_slot validate_consensus_state
  missing_slot_passes =
      let (root, from_ones) = L.from_slice_total (replicate 32 1) refl in
      let (now, from_nanos, _) = F.time_from_nanos_total 1000000000 (omega arith) in
      rw (from_ones, from_nanos) refl

  missing_timestamp_passes : test_consensus_state_validate_missing_timestamp ≡ ok tt
  unfolding test_consensus_state_validate_missing_timestamp validate_consensus_state
  missing_timestamp_passes =
      let (root, from_ones) = L.from_slice_total (replicate 32 1) refl in
      let (now, from_nanos, nanos) = F.time_from_nanos_total 0 (omega arith) in
      rw (from_ones, from_nanos) (rw (h256_nonempty L T F root, nanos) refl)

  missing_current_passes : test_consensus_state_validate_missing_current_sync_committee ≡ ok tt
  unfolding test_consensus_state_validate_missing_current_sync_committee validate_consensus_state
  missing_current_passes =
      let (root, from_ones) = L.from_slice_total (replicate 32 1) refl in
      let (now, from_nanos, nanos) = F.time_from_nanos_total 1000000000 (omega arith) in
      rw (from_ones, from_nanos)
        (rw (h256_nonempty L T F root, nanos, decided_self public_key_dec public_key_default) refl)

  missing_next_passes : test_consensus_state_validate_missing_next_sync_committee ≡ ok tt
  unfolding test_consensus_state_validate_missing_next_sync_committee validate_consensus_state
  missing_next_passes =
      let (key, parsed) = F.test_key in
      let (root, from_ones) = L.from_slice_total (replicate 32 1) refl in
      let (now, from_nanos, nanos) = F.time_from_nanos_total 1000000000 (omega arith) in
      rw (parsed, from_ones, from_nanos)
        (ground (arith, h256_nonempty L T F root, nanos, F.test_key-ne-default key parsed))

  storage_root_passes : test_consensus_state_storage_root ≡ ok tt
  unfolding test_consensus_state_storage_root
  storage_root_passes =
      let (s, made, _, _) = create_test_consensus_state-IsRepresentable L T F in
      rw (made, decided_self h256_dec s.storage_root) refl

  timestamp_passes : test_timestamp_to_proto_and_back ≡ ok tt
  unfolding test_timestamp_to_proto_and_back
  timestamp_passes =
      let (s, made, r, _) = create_test_consensus_state-IsRepresentable L T F in
      rw (made, consensus_state_try_from-into L s r, decided_self time_dec s.timestamp) refl

  invalid_root :
      (s : ConsensusState) (bytes : List ℕ)
      → IsRepresentable s
      → (length bytes == 32) ≡ false
      → assert_invalid (record (consensus_state_into s) { storage_root = bytes }) ≡ ok tt
  unfolding consensus_state_try_from consensus_state_into
  invalid_root s bytes r wrong = ground (arith, r, L.public_key_nonempty s.next_sync_committee)

  invalid_root_passes : test_consensus_state_try_from_invalid_storage_root_length ≡ ok tt
  unfolding test_consensus_state_try_from_invalid_storage_root_length
  invalid_root_passes =
      let (s, made, r, _) = create_test_consensus_state-IsRepresentable L T F in
      let rejected = λ (n : ℕ). invalid_root s (replicate n 1) r in
      rw (made, rejected 0 refl, rejected 31 refl, rejected 33 refl, rejected 64 refl) refl

  module _ ⦃S : Services⦄ (K : IsCodec) (W : IsWritable) where
    conversion_passes : test_consensus_state_proto_conversion ≡ ok tt
    unfolding test_consensus_state_proto_conversion
    conversion_passes =
        let (s, made, r, _) = create_test_consensus_state-IsRepresentable L T F in
        let (any, written) = consensus_state_to_any_total W s in
        rw
          (
            made,
            written,
            consensus_state_from_any-to_any L K s r written,
            decided_self consensus_state_dec s,
          )
          refl

    from_ibc-to_ibc :
        (s : ConsensusState)
        → IsRepresentable s
        → (any : IbcAny) × (consensus_state_to_ibc s ≡ ok any)
          × (any.type_url ≡ ethereum_consensus_state_type_url)
          × (consensus_state_from_ibc any ≡ ok s)
    unfolding consensus_state_to_ibc consensus_state_from_ibc
    from_ibc-to_ibc s r =
        let (bytes, encoded) = W.encode_consensus_state_total (consensus_state_into s) in
        (
          record { type_url = ethereum_consensus_state_type_url; value = bytes },
          rw encoded refl,
          refl,
          rw (K.decode-encode_consensus_state (consensus_state_into s) bytes encoded)
              (consensus_state_try_from-into L s r),
        )

    conversion_ibc_any_passes : test_consensus_state_proto_conversion_ibc_any ≡ ok tt
    unfolding test_consensus_state_proto_conversion_ibc_any
    conversion_ibc_any_passes =
        let (s, made, r, _) = create_test_consensus_state-IsRepresentable L T F in
        let (any, written, url, read) = from_ibc-to_ibc s r in
        rw (made, written, url, read, decided_self consensus_state_dec s) refl

    unknown_type_passes : test_consensus_state_from_any_unknown_type ≡ ok tt
    unfolding test_consensus_state_from_any_unknown_type consensus_state_from_ibc
    unknown_type_passes = refl

    pub consensus_state_tests_pass : run_tests consensus_state_tests ≡ ok tt
    unfolding consensus_state_tests
    consensus_state_tests_pass =
        rw
          (
            default_passes, validate_default_passes, validate_passes, missing_slot_passes,
            missing_timestamp_passes, missing_current_passes, missing_next_passes,
            conversion_passes, conversion_ibc_any_passes, unknown_type_passes, storage_root_passes,
            timestamp_passes, invalid_root_passes,
          )
          refl
