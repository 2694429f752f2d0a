-- ===== src/UnitTests/Calls/Answered.antt =====
-- light-client/src/client.rs, module `tests`: the tests of the calls that read the mock host pass.
use native.Mathlib.Decide.{ℕ_discrete}
use ethereum_elc.Base.{ℕ, ◌>>◌, ◌≡◌, refl, some, none, [], ok, true}
use ethereum_elc.External.{Crates}
use ethereum_elc.Misc.{to_lcp_height}
use ethereum_elc.ConsensusState.{ConsensusState}
use ethereum_elc.ClientState.{ClientState}
use ethereum_elc.ClientState.Update.Accepted.{HeaderAccepted}
use ethereum_elc.Header.{Header}
use ethereum_elc.Laws.{IsLawful, IsCodec}
use ethereum_elc.Services.{Services, trusting_period, UpdateStateData}
use ethereum_elc.Chain.Written.{
  IsWritable, client_state_to_any_total, consensus_state_to_any_total, gen_state_id_writes,
}
use ethereum_elc.Client.{client_latest_height, read_states}
use ethereum_elc.Client.Update.{update_state}
use ethereum_elc.Client.Update.Processed.{
  HeaderProcessed, trusted_height_of, update_state-HeaderProcessed,
}
use ethereum_elc.Client.Membership.{verify_membership, verify_non_membership}
use ethereum_elc.UnitTests.{decided_self, assert_eq}
use ethereum_elc.UnitTests.MockHost.{StoreCrates, MockHostContext, mock_reader}
use ethereum_elc.UnitTests.MockHost.Reads.{IsKeeper, mock_reader_new}
use ethereum_elc.UnitTests.Calls.{
  CallCrates, frozen_at, test_latest_height, test_latest_height_client_not_found,
  test_verify_membership_frozen_client_fails, test_verify_non_membership_frozen_client_fails,
  test_update_state_frozen_client_fails, test_update_state_success,
}
use ethereum_elc.UnitTests.Calls.SetUp.{IsCallFixture, IsStatePair, IsSetUp, set_up-IsSetUp}
use ethereum_elc.UnitTests.Calls.Made.{frozen_at-IsRepresentable}

module _ ⦃C : Crates⦄ ⦃S : Services⦄ (K : StoreCrates) (T : CallCrates) (L : IsLawful) (D : IsCodec)
    (W : IsWritable) (R : IsKeeper K) (F : IsCallFixture T) where
  open C use {
    ClientId, Height, Time, height_new, block_number, trusted_height, unix_epoch, revision_number,
    revision_height, lc_height_new, lc_revision_number, lc_revision_height,
    trusting_period_context_new,
  }

  pub not_found_passes : test_latest_height_client_not_found K T ≡ ok tt
  unfolding test_latest_height_client_not_found client_latest_height
  not_found_passes =
      let (i, made) = F.client_id_new_total 999 in
      let (e, missing) = mock_reader_new K R i unix_epoch in rw (made, missing) refl

  module _ (client : ClientState) (consensus : ConsensusState)
      (p : IsStatePair client consensus) where
    at_block : IsStatePair (record client { latest_execution_block_number = 12345 }) consensus
    at_block = record {
      client_representable = record {
        fork_parameters = p.client_representable.fork_parameters;
        trust_level = p.client_representable.trust_level;
        trusting_period = p.client_representable.trusting_period;
        max_clock_drift = p.client_representable.max_clock_drift;
        consensus_verifier = p.client_representable.consensus_verifier;
        execution_verifier = p.client_representable.execution_verifier;
      };
      consensus_representable = p.consensus_representable;
    }

    frozen_pair : (n : ℕ) → IsStatePair (frozen_at client n) consensus
    frozen_pair n = record {
      client_representable = frozen_at-IsRepresentable K T L D W F client n p.client_representable;
      consensus_representable = p.consensus_representable;
    }

    asked :
        (n h : ℕ)
        → (assert_eq ℕ_discrete (revision_number (to_lcp_height (lc_height_new n h))) n
            >> assert_eq ℕ_discrete (revision_height (to_lcp_height (lc_height_new n h))) h)
          ≡ ok tt
    asked n h =
        rw
          (
            L.revision_number-height_new (lc_revision_number (lc_height_new n h))
                (lc_revision_height (lc_height_new n h)),
            L.revision_height-height_new (lc_revision_number (lc_height_new n h))
                (lc_revision_height (lc_height_new n h)),
            F.lc_revision_number-new n h,
            F.lc_revision_height-new n h,
            decided_self ℕ_discrete n,
            decided_self ℕ_discrete h,
          )
          refl

    pub latest_height_passes : test_latest_height K T client consensus ≡ ok tt
    unfolding test_latest_height client_latest_height
    latest_height_passes =
        let (i, made) = F.client_id_new_total 0 in
        let (host, done, h) =
          set_up-IsSetUp K T L D W R unix_epoch i _ consensus (height_new 0 1) at_block in
        rw (made, done, h.client_stored, h.client_read) (asked 0 12345)

    pub verify_membership_passes :
        test_verify_membership_frozen_client_fails K T client consensus ≡ ok tt
    unfolding test_verify_membership_frozen_client_fails verify_membership read_states frozen_at
    verify_membership_passes =
        let (i, made) = F.client_id_new_total 0 in
        let (host, done, h) =
          set_up-IsSetUp K T L D W R unix_epoch i _ consensus (height_new 0 1) (frozen_pair 50) in
        rw (made, done, h.client_stored, h.consensus_stored, h.client_read) refl

    pub verify_non_membership_passes :
        test_verify_non_membership_frozen_client_fails K T client consensus ≡ ok tt
    unfolding test_verify_non_membership_frozen_client_fails verify_non_membership read_states
        frozen_at
    verify_non_membership_passes =
        let (i, made) = F.client_id_new_total 0 in
        let (host, done, h) =
          set_up-IsSetUp K T L D W R unix_epoch i _ consensus (height_new 0 1) (frozen_pair 50) in
        rw (made, done, h.client_stored, h.consensus_stored, h.client_read) refl

    module _ (now : Time) (header : Header)
        (trusts : trusted_height_of header ≡ height_new 0 1) where
      pub update_frozen_passes :
          test_update_state_frozen_client_fails K T client consensus now header ≡ ok tt
      unfolding test_update_state_frozen_client_fails update_state read_states frozen_at
      update_frozen_passes =
          let (i, made) = F.client_id_new_total 0 in
          let (host, done, h) =
            set_up-IsSetUp K T L D W R now i _ consensus (height_new 0 1) (frozen_pair 50) in
          rw (made, done, trusts, h.client_stored, h.consensus_stored, h.client_read) refl

      answer :
          (host : MockHostContext K) (i : ClientId) (t : ClientState) (after : ConsensusState)
          → IsSetUp K T host now i (height_new 0 1) client consensus
          → client.frozen_height ≡ none
          → HeaderAccepted client now consensus header t after
          → (r : UpdateStateData) × HeaderProcessed (mock_reader K host) i header r
            × (r.height ≡ height_new 0 (block_number header.execution_update))
            × (r.prove ≡ true)
      answer host i t after h unfrozen accepted =
          let (any_new, written) = client_state_to_any_total W t in
          let (any_after, written') = consensus_state_to_any_total W after in
          let (prev_id, prev_known) = gen_state_id_writes W client consensus in
          let (post_id, post_known) = gen_state_id_writes W t after in
          (
            record {
              new_any_client_state = any_new;
              new_any_consensus_state = any_after;
              height = height_new 0 (block_number header.execution_update);
              message = record {
                prev_height = some (trusted_height_of header);
                prev_state_id = some prev_id;
                post_height = height_new 0 (block_number header.execution_update);
                post_state_id = post_id;
                emitted_states = [];
                timestamp = after.timestamp;
                context = trusting_period (
                    trusting_period_context_new client.trusting_period client.max_clock_drift
                      after.timestamp consensus.timestamp);
              };
              prove = true;
            },
            record {
              client = client;
              consensus = consensus;
              new_client = t;
              new_consensus = after;
              states = record {
                any_client = h.any_client;
                any_consensus = h.any_consensus;
                stored_client = h.client_stored;
                stored_consensus = rw trusts h.consensus_stored;
                client_read = h.client_read;
                unfrozen = unfrozen;
                consensus_read = h.consensus_read;
              };
              accepted = rw h.time_kept accepted;
              returned = record {
                prev_id = prev_id;
                post_id = post_id;
                prev_known = prev_known;
                post_known = post_known;
                client_written = written;
                consensus_written = written';
                height_known = refl;
                message_known = refl;
                proved = refl;
              };
            },
            refl,
            refl,
          )

      pub update_passes :
          (t : ClientState) (after : ConsensusState)
          → client.frozen_height ≡ none
          → HeaderAccepted client now consensus header t after
          → block_number header.execution_update ≡ 100
          → test_update_state_success K T client consensus now header ≡ ok tt
      unfolding test_update_state_success ℕ_discrete
      update_passes t after unfrozen accepted block =
          let (i, made) = F.client_id_new_total 0 in
          let (host, done, h) =
            set_up-IsSetUp K T L D W R now i client consensus (height_new 0 1) p in
          let (r, processed, at, proved) = answer host i t after h unfrozen accepted in
          rw (made, done, (update_state-HeaderProcessed _ _ _ _).1 processed)
            (rw
              (
                at,
                L.revision_height-height_new 0 (block_number header.execution_update),
                block,
                proved,
              )
              refl)
