-- ===== src/UnitTests/ConsensusStates/Made.antt =====
-- light-client/src/consensus_state.rs, module `tests`: the consensus state of the tests is valid, and can
-- be written.
use ethereum_elc.Base.{◌≡◌, refl, false, ok, arith}
use ethereum_elc.External.{Crates}
use ethereum_elc.ConsensusState.{ConsensusState, validate_consensus_state, is_empty}
use ethereum_elc.ConsensusState.Codec.RoundTrip.{IsRepresentable}
use ethereum_elc.Laws.{IsLawful}
use ethereum_elc.UnitTests.{replicate}
use ethereum_elc.UnitTests.States.{test_consensus_state, create_test_consensus_state}
use ethereum_elc.UnitTests.Fixtures.{TestCrates, IsFixture}

module _ ⦃C : Crates⦄ (L : IsLawful) (T : TestCrates) (F : IsFixture T) where
  open C use {
    H256, PublicKey, Time, public_key_default, public_key_dec, h256_dec, h256_default, time_dec,
    h256_from_slice, h256_as_bytes, as_unix_timestamp_nanos, time_from_nanos, public_key_try_from,
  }

  -- The bytes of a hash are never empty.
  pub h256_nonempty : (h : H256) → is_empty (h256_as_bytes h) ≡ false
  h256_nonempty h = ground (arith, L.length-as_bytes h)

  pub create_test_consensus_state-IsRepresentable :
      (s : ConsensusState) × (create_test_consensus_state ≡ ok s)
      × IsRepresentable s
      × (validate_consensus_state s ≡ ok tt)
  unfolding create_test_consensus_state validate_consensus_state
  create_test_consensus_state-IsRepresentable =
      let (key, parsed) = F.test_key in
      let (root, from_ones) = L.from_slice_total (replicate 32 1) refl in
      let (now, from_nanos, nanos) = F.time_from_nanos_total 1000000000000000000 (omega arith) in
      (
        test_consensus_state key root now,
        rw (parsed, from_ones, from_nanos) refl,
        let stable = L.public_key_stable _ key parsed in
            record { current_key = stable; next_key = stable },
        ground (arith, h256_nonempty root, nanos, F.test_key-ne-default key parsed),
      )
