-- ===== src/UnitTests/Calls/Made.antt =====
-- light-client/src/client.rs, module `tests`: the tests of `client_type` and `create_client` pass.
use native.Mathlib.Decide.{ℕ_discrete}
use ethereum_elc.Base.{
  ℕ, Outcome, panic, ◌≢◌, ◌∙◌, ◌≡◌, refl, true, none, [], ok, err, ◌>>=◌, ◌>>◌, arith,
}
use ethereum_elc.External.{Crates}
use ethereum_elc.Errors.{Error, uninitialized_client_state_field}
use ethereum_elc.ConsensusState.{ConsensusState, validate_consensus_state, default_consensus_state}
use ethereum_elc.ConsensusState.Codec.{consensus_state_from_any}
use ethereum_elc.ConsensusState.Codec.RoundTrip as ConsensusCodec
use ethereum_elc.ClientState.{ClientState, validate_client_state, default_client_state, is_frozen}
use ethereum_elc.ClientState.Checks.{IsInitialized, validate_client_state-IsInitialized}
use ethereum_elc.ClientState.Codec.{
  client_state_from_any, client_state_try_from, client_state_into, client_state_to_any,
}
use ethereum_elc.ClientState.Codec.RoundTrip as ClientCodec
use ethereum_elc.Laws.{IsLawful, IsCodec}
use ethereum_elc.Services.{Services, CreateClientResult}
use ethereum_elc.StateId.{gen_state_id}
use ethereum_elc.Chain.Written.{
  IsWritable, client_state_to_any_total, consensus_state_to_any_total, gen_state_id_writes,
}
use ethereum_elc.Client.{create_client, own}
use ethereum_elc.Registry.{ethereum_light_client}
use ethereum_elc.UnitTests.{decided_self, assert_err}
use ethereum_elc.UnitTests.MockHost.{StoreCrates}
use ethereum_elc.UnitTests.Calls.{
  CallCrates, frozen_at, test_client_type, test_create_client_success,
  test_create_client_frozen_client_fails, test_create_client_invalid_client_state_fails,
  test_create_client_unknown_client_state_type_fails,
  test_create_client_invalid_consensus_state_fails,
}
use ethereum_elc.UnitTests.Calls.SetUp.{IsCallFixture, IsStatePair}

module _ ⦃C : Crates⦄ ⦃S : Services⦄ (K : StoreCrates) (T : CallCrates) where
  pub client_type_passes : test_client_type K T ≡ ok tt
  unfolding test_client_type ethereum_light_client
  client_type_passes = refl

module _ ⦃C : Crates⦄ ⦃S : Services⦄ (K : StoreCrates) (T : CallCrates) (L : IsLawful) (D : IsCodec)
    (W : IsWritable) (F : IsCallFixture T) where
  open C use {Any, LcError, h256_default, public_key_default}

  default_made : (s : ConsensusState) × (default_consensus_state {E = ⊥} ≡ ok s)
  unfolding default_consensus_state
  default_made =
      let (t, from_nanos) = F.epoch in
      (
        record {
          slot = 0;
          storage_root = h256_default;
          timestamp = t;
          current_sync_committee = public_key_default;
          next_sync_committee = public_key_default;
        },
        rw from_nanos refl,
      )

  pub unknown_client_passes : test_create_client_unknown_client_state_type_fails K T ≡ ok tt
  unfolding test_create_client_unknown_client_state_type_fails create_client client_state_from_any
  unknown_client_passes =
      let (s, made) = default_made in
      let (any_consensus, written) = consensus_state_to_any_total W s in
      rw (made, written, F.any_into-any_new "/unknown.type" []) refl

  -- The root is not checked when a client state is read, and is when it is validated.
  default_read :
      (r : Outcome Error ClientState)
      → client_state_try_from (client_state_into default_client_state) ≡ r
      → (r ≢ panic) × ((s : ClientState) → r ≡ ok s → s.genesis_validators_root ≡ h256_default)
  unfolding client_state_try_from client_state_into
  default_read r e = (
    λ h.
        ClientCodec.client_state_try_from_no_panic L (client_state_into default_client_state)
          (e ∙ h),
    λ s h. ground (arith, L.from_slice-as_bytes h256_default),
  )

  validate_unset_root :
      (s : ClientState)
      → s.genesis_validators_root ≡ h256_default
      → validate_client_state s ≡ err (uninitialized_client_state_field "genesis_validators_root")
  unfolding validate_client_state
  validate_unset_root s unset = ground arith

  unset_root_fails :
      (r : Outcome Error ClientState) (rest : ClientState → Outcome LcError CreateClientResult)
      → (r ≢ panic) × ((s : ClientState) → r ≡ ok s → s.genesis_validators_root ≡ h256_default)
      → assert_err (own r >>= λ s. own (validate_client_state s) >> rest s) ≡ ok tt
  unset_root_fails (ok s) rest p = rw (validate_unset_root s (p.1 s refl)) refl
  unset_root_fails (err e) rest p = refl
  unset_root_fails panic rest p = absurd (p.0 refl)

  default_rejected :
      (any_client any_consensus : Any)
      → client_state_to_any default_client_state ≡ ok any_client
      → assert_err (create_client any_client any_consensus) ≡ ok tt
  unfolding create_client client_state_from_any
  default_rejected any_client any_consensus written =
      let (bytes, encoded, e) =
        ClientCodec.client_state_to_any_parts L default_client_state written in
      rw (e, L.any_into-any_from, D.decode-encode_client_state _ bytes encoded)
        (unset_root_fails _ _ (default_read _ refl))

  pub invalid_client_passes : test_create_client_invalid_client_state_fails K T ≡ ok tt
  unfolding test_create_client_invalid_client_state_fails
  invalid_client_passes =
      let (s, made) = default_made in
      let (any_client, written) = client_state_to_any_total W default_client_state in
      let (any_consensus, written') = consensus_state_to_any_total W s in
      rw (written, made, written') (default_rejected any_client any_consensus written)

  -- The freeze is not among what is written in another form, nor among what `validate` looks at.
  pub frozen_at-IsRepresentable :
      (s : ClientState) (n : ℕ)
      → ClientCodec.IsRepresentable s
      → ClientCodec.IsRepresentable (frozen_at s n)
  unfolding frozen_at
  frozen_at-IsRepresentable s n r = record {
    fork_parameters = r.fork_parameters;
    trust_level = r.trust_level;
    trusting_period = r.trusting_period;
    max_clock_drift = r.max_clock_drift;
    consensus_verifier = r.consensus_verifier;
    execution_verifier = r.execution_verifier;
  }

  validate-frozen_at :
      (s : ClientState) (n : ℕ) → validate_client_state (frozen_at s n) ≡ validate_client_state s
  unfolding frozen_at validate_client_state
  validate-frozen_at s n = refl

  frozen_at-is_frozen : (s : ClientState) (n : ℕ) → is_frozen (frozen_at s n) ≡ true
  unfolding frozen_at
  frozen_at-is_frozen s n = refl

  module _ (client : ClientState) (consensus : ConsensusState) (p : IsStatePair client consensus)
      (v : IsInitialized client) (u : client.frozen_height ≡ none)
      (w : validate_consensus_state consensus ≡ ok tt) where
    pub success_passes : test_create_client_success K T client consensus ≡ ok tt
    unfolding test_create_client_success create_client gen_state_id
    success_passes =
        let (any_client, written) = client_state_to_any_total W client in
        let (any_consensus, written') = consensus_state_to_any_total W consensus in
        let (id, known) = gen_state_id_writes W client consensus in
        rw
          (
            written,
            written',
            ClientCodec.client_state_from_any-to_any L D client p.client_representable written,
            (validate_client_state-IsInitialized client).1 v,
            u,
            ConsensusCodec.consensus_state_from_any-to_any L D consensus p.consensus_representable
                written',
            w,
            known,
          )
          (rw
            (
              L.revision_height-height_new _ _,
              F.lc_revision_height-new 0 client.latest_execution_block_number,
              decided_self ℕ_discrete client.latest_execution_block_number,
            )
            refl)

    pub frozen_passes : test_create_client_frozen_client_fails K T client consensus ≡ ok tt
    unfolding test_create_client_frozen_client_fails create_client
    frozen_passes =
        let frozen = frozen_at client 100 in
        let (any_client, written) = client_state_to_any_total W frozen in
        let (any_consensus, written') = consensus_state_to_any_total W consensus in
        rw
          (
            written,
            written',
            ClientCodec.client_state_from_any-to_any L D frozen
                (frozen_at-IsRepresentable client 100 p.client_representable) written,
            validate-frozen_at client 100,
            (validate_client_state-IsInitialized client).1 v,
            frozen_at-is_frozen client 100,
          )
          refl

    pub invalid_consensus_passes :
        test_create_client_invalid_consensus_state_fails K T client consensus ≡ ok tt
    unfolding test_create_client_invalid_consensus_state_fails create_client
        consensus_state_from_any
    invalid_consensus_passes =
        let (any_client, written) = client_state_to_any_total W client in
        rw
          (
            written,
            ClientCodec.client_state_from_any-to_any L D client p.client_representable written,
            (validate_client_state-IsInitialized client).1 v,
            u,
            F.any_into-any_new "/unknown.consensus" [],
          )
          refl
