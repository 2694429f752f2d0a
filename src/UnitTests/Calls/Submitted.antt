-- ===== src/UnitTests/Calls/Submitted.antt =====
-- light-client/src/client.rs, module `tests`: the tests of `submit_misbehaviour` pass.
use ethereum_elc.Base.{◌≡◌, refl, none, some, [], ◌∷◌, ok, false}
use ethereum_elc.Std.{duration_zero}
use ethereum_elc.External.{Crates}
use ethereum_elc.ConsensusState.{ConsensusState}
use ethereum_elc.ClientState.{ClientState, is_frozen}
use ethereum_elc.ClientState.Codec.{client_state_from_any}
use ethereum_elc.ClientState.Codec.RoundTrip as ClientCodec
use ethereum_elc.ClientState.Update.Accepted.{MisbehaviourAccepted}
use ethereum_elc.Misbehaviour.{Misbehaviour}
use ethereum_elc.Misc.{to_lcp_height}
use ethereum_elc.Laws.{IsLawful, IsCodec}
use ethereum_elc.Services.{Services, trusting_period, MisbehaviourReport}
use ethereum_elc.Chain.Written.{IsWritable, client_state_to_any_total, gen_state_id_writes}
use ethereum_elc.Client.{read_states}
use ethereum_elc.Client.Update.{submit_misbehaviour}
use ethereum_elc.Client.Update.Processed.{
  MisbehaviourProcessed, submit_misbehaviour-MisbehaviourProcessed,
}
use ethereum_elc.UnitTests.{decided_self}
use ethereum_elc.UnitTests.MockHost.{StoreCrates, MockHostContext, mock_reader}
use ethereum_elc.UnitTests.MockHost.Reads.{IsKeeper}
use ethereum_elc.UnitTests.Calls.{
  CallCrates, frozen_at, test_submit_misbehaviour_frozen_client_fails,
  test_submit_misbehaviour_success,
}
use ethereum_elc.UnitTests.Calls.SetUp.{IsCallFixture, IsStatePair, IsSetUp, set_up-IsSetUp}
use ethereum_elc.UnitTests.Calls.Made.{frozen_at-IsRepresentable}

module _ ⦃C : Crates⦄ ⦃S : Services⦄ (K : StoreCrates) (T : CallCrates) (L : IsLawful) (D : IsCodec)
    (W : IsWritable) (R : IsKeeper K) (F : IsCallFixture T) (client : ClientState)
    (consensus : ConsensusState) (p : IsStatePair client consensus) where
  open C use {
    Any, ClientId, Time, height_new, trusted_height, unix_epoch, trusting_period_context_new,
  }

  module _ (now : Time) (evidence : ClientId → Misbehaviour)
      (trusts : (i : ClientId)
        → to_lcp_height (trusted_height (evidence i).trusted_sync_committee) ≡ height_new 0 1) where
    pub submit_frozen_passes :
        test_submit_misbehaviour_frozen_client_fails K T client consensus now evidence ≡ ok tt
    unfolding test_submit_misbehaviour_frozen_client_fails submit_misbehaviour read_states frozen_at
    submit_frozen_passes =
        let (i, made) = F.client_id_new_total 0 in
        let q : IsStatePair (frozen_at client 50) consensus = record {
          client_representable =
              frozen_at-IsRepresentable K T L D W F client 50 p.client_representable;
          consensus_representable = p.consensus_representable;
        } in
        let (host, done, h) = set_up-IsSetUp K T L D W R now i _ consensus (height_new 0 1) q in
        rw (made, done, trusts i, h.client_stored, h.consensus_stored, h.client_read) refl

    report :
        (host : MockHostContext K) (i : ClientId) (t : ClientState)
        → IsSetUp K T host now i (height_new 0 1) client consensus
        → client.frozen_height ≡ none
        → MisbehaviourAccepted client now i consensus (evidence i) t
        → (r : MisbehaviourReport) × MisbehaviourProcessed
            (mock_reader K host)
            i
            (T.any_new "dummy" [])
            (evidence i)
            r
          × (client_state_from_any r.new_any_client_state ≡ ok t)
    report host i t h unfrozen accepted =
        let (any_new, written) = client_state_to_any_total W t in
        let (prev_id, prev_known) = gen_state_id_writes W client consensus in
        (
          record {
            new_any_client_state = any_new;
            message = record {
              prev_states =
                  record {
                    height = to_lcp_height (trusted_height (evidence i).trusted_sync_committee);
                    state_id = prev_id;
                  }
                  ∷ [];
              context = trusting_period (
                  trusting_period_context_new client.trusting_period duration_zero unix_epoch
                    consensus.timestamp);
              client_message = T.any_new "dummy" [];
            };
          },
          record {
            client = client;
            consensus = consensus;
            new_client = t;
            prev_id = prev_id;
            states = record {
              any_client = h.any_client;
              any_consensus = h.any_consensus;
              stored_client = h.client_stored;
              stored_consensus = rw (trusts i) h.consensus_stored;
              client_read = h.client_read;
              unfrozen = unfrozen;
              consensus_read = h.consensus_read;
            };
            accepted = rw h.time_kept accepted;
            client_written = written;
            prev_known = prev_known;
            message_known = refl;
          },
          ClientCodec.client_state_from_any-to_any L D t
              (rw accepted.new_client_state (record {
                fork_parameters = p.client_representable.fork_parameters;
                trust_level = p.client_representable.trust_level;
                trusting_period = p.client_representable.trusting_period;
                max_clock_drift = p.client_representable.max_clock_drift;
                consensus_verifier = p.client_representable.consensus_verifier;
                execution_verifier = p.client_representable.execution_verifier;
              }))
              written,
        )

    unfrozen_client : client.frozen_height ≡ none → is_frozen client ≡ false
    unfrozen_client u = rw u refl

    pub submit_passes :
        (t : ClientId → ClientState)
        → client.frozen_height ≡ none
        → ((i : ClientId) → MisbehaviourAccepted client now i consensus (evidence i) (t i))
        → test_submit_misbehaviour_success K T client consensus now evidence ≡ ok tt
    unfolding test_submit_misbehaviour_success
    submit_passes t unfrozen accepted =
        let (i, made) = F.client_id_new_total 0 in
        let (host, done, h) =
          set_up-IsSetUp K T L D W R now i client consensus (height_new 0 1) p in
        let (r, processed, read) = report host i (t i) h unfrozen (accepted i) in
        rw
          (
            made,
            done,
            (submit_misbehaviour-MisbehaviourProcessed _ _ _ _ _).1 processed,
            unfrozen_client unfrozen,
            read,
            (accepted i).new_client_state,
            trusts i,
            decided_self T.frozen_height_dec (some (height_new 0 1)),
          )
          refl
