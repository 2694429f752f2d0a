-- ===== src/UnitTests/Evidence/Pass.antt =====
-- light-client/src/client_state.rs, module `integration_tests`: the tests of misbehaviour pass.
use ethereum_elc.Base.{
  ◌≡◌, ◌∙◌, ap, ◌≢◌, refl, String, none, some, ok, err, success, failure, Option, arith,
}
use ethereum_elc.External.{Crates}
use ethereum_elc.Errors.{unexpected_client_id_in_misbehaviour}
use ethereum_elc.Misc.{to_lcp_height}
use ethereum_elc.ConsensusState.{ConsensusState, committee_info}
use ethereum_elc.ClientState.{ClientState, build_context}
use ethereum_elc.ClientState.Update.{check_misbehaviour_and_update_state}
use ethereum_elc.ClientState.Update.Accepted.{
  MisbehaviourAccepted, check_misbehaviour-MisbehaviourAccepted,
}
use ethereum_elc.Misbehaviour.{validate_misbehaviour, finalized_header}
use ethereum_elc.Services.{Services}
use ethereum_elc.UnitTests.{decided_self}
use ethereum_elc.UnitTests.Evidence.{
  assert_mismatch, evidence_of, test_check_misbehaviour_client_id_mismatch,
  test_check_misbehaviour_and_update_state_success, test_check_misbehaviour_trusting_period_expired,
}

clash : (s : String) → s ≡ "ethereum-999" → s ≢ "ethereum-0"
clash s e f = cc (e, f)

module _ ⦃C : Crates⦄ ⦃S : Services⦄ where
  open C use {
    Height, Time, ClientId, TrustedSyncCommittee, ConsensusUpdate, TrustedState, LcTypesError,
    client_id_from_str, client_id_as_str, client_id_dec, height_new, trusted_height, sync_committee,
    is_next, trusted_sync_committee_validate, validate_state_timestamp_within_trusting_period,
    as_unix_timestamp_nanos,
  }

  -- An identifier that is read from one of the two names has that name.
  pub record IsNamed : Type 0 where
    pub client_0 : (i : ClientId) × (client_id_from_str "ethereum-0" ≡ success i)
    pub client_999 : (i : ClientId) × (client_id_from_str "ethereum-999" ≡ success i)
    pub as_str-from_str :
        (s : String) (i : ClientId) → client_id_from_str s ≡ success i → client_id_as_str i ≡ s

  module _ (N : IsNamed) (client : ClientState) (consensus : ConsensusState) (now : Time)
      (committee : TrustedSyncCommittee) (update_1 update_2 : ConsensusUpdate)
      (valid : trusted_sync_committee_validate committee ≡ success tt) where
    rejected_mismatch :
        (expected actual : ClientId)
        → actual ≢ expected
        → check_misbehaviour_and_update_state client now expected consensus
            (evidence_of committee update_1 update_2 actual)
          ≡ err (unexpected_client_id_in_misbehaviour expected actual)
    unfolding check_misbehaviour_and_update_state validate_misbehaviour
    rejected_mismatch expected actual apart = ground (arith, valid, apart)

    mismatch_passes :
        test_check_misbehaviour_client_id_mismatch client consensus now committee update_1 update_2
        ≡ ok tt
    unfolding test_check_misbehaviour_client_id_mismatch assert_mismatch
    mismatch_passes =
        let (expected, made) = N.client_0 in
        let (other, made') = N.client_999 in
        let name = N.as_str-from_str "ethereum-0" expected made in
        let name' = N.as_str-from_str "ethereum-999" other made' in
        let apart = λ (e : other ≡ expected).
          clash (client_id_as_str other) name' (ap client_id_as_str e ∙ name) in
        rw (made', made, rejected_mismatch expected other apart, name, name') refl

    -- Evidence that would be accepted, but that the state is too old.
    module _ (trusted : TrustedState)
        (known : S.trusted_state_new committee_info consensus
            (sync_committee committee)
            (is_next committee)
          ≡ success trusted)
        (verified : S.verify_misbehaviour client.consensus_verifier
            (build_context client now)
            trusted
            (finalized_header update_1 update_2)
          ≡ success tt) where
      expired_passes :
          (e : LcTypesError)
          → validate_state_timestamp_within_trusting_period
              (as_unix_timestamp_nanos now)
              client.trusting_period
              (as_unix_timestamp_nanos consensus.timestamp)
            ≡ failure e
          → test_check_misbehaviour_trusting_period_expired client consensus now committee update_1
              update_2
            ≡ ok tt
      unfolding test_check_misbehaviour_trusting_period_expired check_misbehaviour_and_update_state
          validate_misbehaviour
      expired_passes e expired =
          let (i, made) = N.client_0 in
          rw (made, valid, decided_self client_id_dec i, known, verified, expired) refl

      success_passes :
          (frozen_height_dec : Discrete (Option Height))
          → client.frozen_height ≡ none
          → to_lcp_height (trusted_height committee) ≡ height_new 0 50
          → validate_state_timestamp_within_trusting_period
              (as_unix_timestamp_nanos now)
              client.trusting_period
              (as_unix_timestamp_nanos consensus.timestamp)
            ≡ success tt
          → test_check_misbehaviour_and_update_state_success client consensus now committee update_1
              update_2 frozen_height_dec
            ≡ ok tt
      unfolding test_check_misbehaviour_and_update_state_success
      success_passes frozen_height_dec unfrozen at fresh =
          let (i, made) = N.client_0 in
          let m = evidence_of committee update_1 update_2 i in
          let frozen : ClientState = record client {
            frozen_height = some (to_lcp_height (trusted_height committee));
          } in
          let accepted : MisbehaviourAccepted client now i consensus m frozen = record {
            trusted = trusted;
            committee_valid = valid;
            same_client = refl;
            committee_trusted = known;
            evidence_verified = verified;
            state_not_expired = fresh;
            new_client_state = refl;
          } in
          rw
            (
              made,
              (check_misbehaviour-MisbehaviourAccepted _ _ _ _ _ _).1 accepted,
              unfrozen,
              at,
              decided_self frozen_height_dec (some (height_new 0 50)),
            )
            refl
