-- ===== src/ClientState/Codec/RoundTrip.antt =====
-- light-client/src/client_state.rs: reading a client state from protobuf and writing it back.
use mathlib.Core.List.{Forall₂}
use ethereum_elc.Base.{
  ℕ, List, [], ◌∷◌, map, refl, ◌≡◌, ◌≢◌, ok, panic, success, arith, ok_or, try_with-bind-eq-ok,
  >>=-eq-ok, ◌∙◌, ap, sym,
}
use ethereum_elc.External.{Crates}
use ethereum_elc.Errors.{ethereum_light_client_types}
use ethereum_elc.Raw.{RawClientState}
use ethereum_elc.ClientState.{ClientState, ethereum_client_state_type_url}
use ethereum_elc.ClientState.Codec.{
  client_state_try_from, client_state_into, make_fork, fork_parameters_into, client_state_from_any,
  client_state_to_any,
}
use ethereum_elc.External.Proto.{ProtoForkParameters}
use ethereum_elc.Laws.Forks.{HasFork, HasForkParameters}
use ethereum_elc.Laws.{IsLawful, IsCodec}
use ethereum_elc.Services.{Services}

module _ ⦃C : Crates⦄ where
  open C use {
    convert_proto_to_fork_parameters, fraction_new, fraction_numerator, fraction_denominator,
    duration_try_from, duration_into, consensus_verifier_default, execution_verifier_default,
  }

  -- The parts of a client state that protobuf holds in another form are in the range of their
  -- conversions, and the verifiers, which it does not hold, are the defaults.
  pub record IsRepresentable (s : ClientState) : Type 0 where
    pub fork_parameters :
        (raw : ProtoForkParameters) × (convert_proto_to_fork_parameters raw
          ≡ success s.fork_parameters)
    pub trust_level :
        fraction_new (fraction_numerator s.trust_level) (fraction_denominator s.trust_level)
        ≡ success s.trust_level
    pub trusting_period :
        duration_try_from (duration_into s.trusting_period) ≡ success s.trusting_period
    pub max_clock_drift :
        duration_try_from (duration_into s.max_clock_drift) ≡ success s.max_clock_drift
    pub consensus_verifier : s.consensus_verifier ≡ consensus_verifier_default
    pub execution_verifier : s.execution_verifier ≡ execution_verifier_default

module _ ⦃C : Crates⦄ (L : IsLawful) where
  open C use {
    Any, any_from, any_into, ForkParameter, ForkParameters, forks, fork_version, fork_epoch,
    fork_spec, convert_proto_to_fork_parameters,
  }

  -- What is written has the fields of the fork parameters.
  make_fork-HasFork :
      (fs : List ForkParameter)
      → Forall₂ HasFork
          (map (λ (f : ForkParameter). make_fork (fork_version f) (fork_epoch f) (fork_spec f)) fs)
          fs
  unfolding make_fork
  make_fork-HasFork [] = Forall₂.nil
  make_fork-HasFork (f ∷ fs) =
      Forall₂.cons
        (record {
          version = refl;
          epoch = refl;
          raw_spec = _;
          spec_present = refl;
          spec = record {
            finalized_root = refl;
            current_committee = refl;
            next_committee = refl;
            payload = refl;
            payload_state_root = refl;
            payload_block_number = refl;
            block_hash = refl;
          };
        })
        (make_fork-HasFork fs)

  fork_parameters_into-HasForkParameters :
      (f : ForkParameters) → HasForkParameters (fork_parameters_into f) f
  unfolding fork_parameters_into
  fork_parameters_into-HasForkParameters f = record {
    genesis = refl;
    all_forks = make_fork-HasFork (forks f);
  }

  pub fork_parameters_read :
      (s : ClientState)
      → IsRepresentable s
      → convert_proto_to_fork_parameters (fork_parameters_into s.fork_parameters)
        ≡ success s.fork_parameters
  fork_parameters_read s r =
      let (raw, read) = r.fork_parameters in
      L.fork_parameters_stable raw _ s.fork_parameters read
        (fork_parameters_into-HasForkParameters s.fork_parameters)

  pub client_state_try_from_no_panic : (raw : RawClientState) → client_state_try_from raw ≢ panic
  unfolding client_state_try_from
  client_state_try_from_no_panic raw = ground (
    arith,
    L.from_slice_total raw.genesis_validators_root,
    L.from_slice_total raw.ibc_commitments_slot,
  )

  pub client_state_try_from-IsRepresentable :
      (raw : RawClientState) {s : ClientState}
      → client_state_try_from raw ≡ ok s
      → IsRepresentable s
  unfolding client_state_try_from
  client_state_try_from-IsRepresentable raw {s} h =
      let (raw_forks, present, h) = >>=-eq-ok (ok_or raw.fork_parameters _) _ h in
      let (params, read, h) =
        try_with-bind-eq-ok ethereum_light_client_types (convert_proto_to_fork_parameters raw_forks)
          _ h in
      let same : s.fork_parameters ≡ params = ground arith in
      record {
        fork_parameters = (raw_forks, read ∙ ap success (sym same));
        trust_level = grind (arith, L.fraction_stable);
        trusting_period = grind (arith, L.duration_stable);
        max_clock_drift = grind (arith, L.duration_stable);
        consensus_verifier = ground arith;
        execution_verifier = ground arith;
      }

  pub client_state_try_from-into :
      (s : ClientState) → IsRepresentable s → client_state_try_from (client_state_into s) ≡ ok s
  unfolding client_state_try_from client_state_into
  client_state_try_from-into s r = grind (
    arith,
    L.from_slice-as_bytes,
    L.length-as_bytes,
    L.address-bytes s.ibc_address,
    L.height_eta,
    fork_parameters_read s r,
  )

  module _ ⦃S : Services⦄ where
    client_state_from_any_parts :
        (any : Any) {s : ClientState}
        → client_state_from_any any ≡ ok s
        → (message : RawClientState) × (S.decode_client_state (any_into any).value
            ≡ success message)
          × (client_state_try_from message ≡ ok s)
    unfolding client_state_from_any
    client_state_from_any_parts any h = ground arith

    pub client_state_from_any-IsRepresentable :
        (any : Any) {s : ClientState} → client_state_from_any any ≡ ok s → IsRepresentable s
    client_state_from_any-IsRepresentable any h =
        let (message, _, e) = client_state_from_any_parts any h in
        client_state_try_from-IsRepresentable message e

    pub client_state_to_any_parts :
        (s : ClientState) {any : Any}
        → client_state_to_any s ≡ ok any
        → (bytes : List ℕ) × (S.encode_client_state (client_state_into s) ≡ success bytes)
          × (any ≡ any_from (record { type_url = ethereum_client_state_type_url; value = bytes }))
    unfolding client_state_to_any
    client_state_to_any_parts s h = ground arith

    -- If a client state is representable (some message reads as its fork parameters, its trust
    -- level and durations are in the range of their conversions and its verifiers are the
    -- defaults) and client_state_to_any writes it, then client_state_from_any reads what was
    -- written as the same state. This is for crates that keep the assumptions of Laws.
    pub client_state_from_any-to_any :
        IsCodec
        → (s : ClientState) {any : Any} → IsRepresentable s
        → client_state_to_any s ≡ ok any
        → client_state_from_any any ≡ ok s
    unfolding client_state_from_any
    client_state_from_any-to_any K s r h =
        let (bytes, encoded, e) = client_state_to_any_parts s h in
        rw (e, L.any_into-any_from)
          (ground (
            arith,
            K.decode-encode_client_state (client_state_into s) bytes encoded,
            client_state_try_from-into s r,
          ))
