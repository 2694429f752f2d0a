-- ===== src/UnitTests/ClientStates/Decoded.antt =====
-- light-client/src/client_state.rs, module `tests`: the tests of the conversions.
use ethereum_elc.Base.{ℕ, ◌==◌, length, false, ◌≡◌, refl, List, ok, arith}
use ethereum_elc.External.{Crates}
use ethereum_elc.External.Proto.{IbcAny}
use ethereum_elc.ClientState.{ClientState, ethereum_client_state_type_url}
use ethereum_elc.ClientState.Codec.RoundTrip.{
  IsRepresentable, client_state_from_any-to_any, client_state_try_from-into, fork_parameters_read,
}
use ethereum_elc.ClientState.Codec.{
  client_state_try_from, client_state_into, client_state_from_ibc, client_state_to_ibc,
}
use ethereum_elc.Chain.Written.{IsWritable, client_state_to_any_total}
use ethereum_elc.Laws.{IsLawful, IsCodec}
use ethereum_elc.Services.{Services}
use ethereum_elc.UnitTests.{replicate, decided_self}
use ethereum_elc.UnitTests.States.{client_state_dec}
use ethereum_elc.UnitTests.Fixtures.{TestCrates, IsFixture}
use ethereum_elc.UnitTests.ClientStates.{
  test_client_state_proto_conversion, test_client_state_proto_conversion_ibc_any,
  test_client_state_from_any_unknown_type,
  test_client_state_try_from_invalid_genesis_validators_root_length,
  test_client_state_try_from_invalid_ibc_commitments_slot_length, assert_invalid,
}
use ethereum_elc.UnitTests.ClientStates.Made.{create_test_client_state-IsTestState}

module _ ⦃C : Crates⦄ (L : IsLawful) (T : TestCrates) (F : IsFixture T) where
  invalid_root :
      (s : ClientState) (bytes : List ℕ)
      → IsRepresentable s
      → (length bytes == 32) ≡ false
      → assert_invalid T (record (client_state_into s) { genesis_validators_root = bytes }) ≡ ok tt
  unfolding client_state_try_from client_state_into
  invalid_root s bytes r wrong = ground (arith, fork_parameters_read L s r)

  invalid_slot :
      (s : ClientState) (bytes : List ℕ)
      → IsRepresentable s
      → (length bytes == 32) ≡ false
      → assert_invalid T (record (client_state_into s) { ibc_commitments_slot = bytes }) ≡ ok tt
  unfolding client_state_try_from client_state_into
  invalid_slot s bytes r wrong = ground (
    arith,
    r.trust_level,
    fork_parameters_read L s r,
    L.from_slice-as_bytes s.genesis_validators_root,
    L.length-as_bytes s.genesis_validators_root,
    L.address-bytes s.ibc_address,
  )

  pub invalid_root_passes :
      test_client_state_try_from_invalid_genesis_validators_root_length T ≡ ok tt
  unfolding test_client_state_try_from_invalid_genesis_validators_root_length
  invalid_root_passes =
      let (s, e, t) = create_test_client_state-IsTestState L T F in
      let rejected = λ (n : ℕ). invalid_root s (replicate n 1) t.representable in
      rw (e, rejected 0 refl, rejected 31 refl, rejected 33 refl, rejected 64 refl) refl

  pub invalid_slot_passes : test_client_state_try_from_invalid_ibc_commitments_slot_length T ≡ ok tt
  unfolding test_client_state_try_from_invalid_ibc_commitments_slot_length
  invalid_slot_passes =
      let (s, e, t) = create_test_client_state-IsTestState L T F in
      let rejected = λ (n : ℕ). invalid_slot s (replicate n 1) t.representable in
      rw (e, rejected 0 refl, rejected 31 refl, rejected 33 refl, rejected 64 refl) refl

  module _ ⦃S : Services⦄ (K : IsCodec) (W : IsWritable) where
    pub conversion_passes : test_client_state_proto_conversion T ≡ ok tt
    unfolding test_client_state_proto_conversion
    conversion_passes =
        let (s, e, t) = create_test_client_state-IsTestState L T F in
        let (any, written) = client_state_to_any_total W s in
        rw
          (
            e,
            written,
            client_state_from_any-to_any L K s t.representable written,
            decided_self (client_state_dec T) s,
          )
          refl

    pub unknown_type_passes : test_client_state_from_any_unknown_type T ≡ ok tt
    unfolding test_client_state_from_any_unknown_type client_state_from_ibc
    unknown_type_passes = refl

    from_ibc-to_ibc :
        (s : ClientState)
        → IsRepresentable s
        → (any : IbcAny) × (client_state_to_ibc s ≡ ok any)
          × (any.type_url ≡ ethereum_client_state_type_url)
          × (client_state_from_ibc any ≡ ok s)
    unfolding client_state_to_ibc client_state_from_ibc
    from_ibc-to_ibc s r =
        let (bytes, encoded) = W.encode_client_state_total (client_state_into s) in
        (
          record { type_url = ethereum_client_state_type_url; value = bytes },
          rw encoded refl,
          refl,
          rw (K.decode-encode_client_state (client_state_into s) bytes encoded)
              (client_state_try_from-into L s r),
        )

    pub conversion_ibc_any_passes : test_client_state_proto_conversion_ibc_any T ≡ ok tt
    unfolding test_client_state_proto_conversion_ibc_any
    conversion_ibc_any_passes =
        let (s, e, t) = create_test_client_state-IsTestState L T F in
        let (any, written, url, read) = from_ibc-to_ibc s t.representable in
        rw (e, written, url, read, decided_self (client_state_dec T) s) refl
