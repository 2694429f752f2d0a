-- ===== src/Chain/Links.antt =====
-- The messages of light-client/src/client.rs over time: the identifiers of states by which the
-- message of a later call joins that of an earlier update.
use ethereum_elc.Base.{ℕ, String, ◌≡◌, some, none, List, ◌∷◌, [], ok, success, arith}
use ethereum_elc.External.{Crates}
use ethereum_elc.Misc.{to_lcp_height}
use ethereum_elc.ConsensusState.{ConsensusState}
use ethereum_elc.ConsensusState.Codec.{consensus_state_from_any}
use ethereum_elc.ConsensusState.Codec.RoundTrip as ConsensusRoundTrip
use ethereum_elc.ClientState.{ClientState, canonicalize}
use ethereum_elc.Header.{Header}
use ethereum_elc.Misbehaviour.{Misbehaviour}
use ethereum_elc.StateId.{gen_state_id}
use ethereum_elc.Services.{
  Services, UpdateStateData, MisbehaviourReport, VerifyMembershipResult, VerifyNonMembershipResult,
}
use ethereum_elc.Client.Read.{StatesRead}
use ethereum_elc.Client.Update.{update_state, submit_misbehaviour}
use ethereum_elc.Client.Update.Processed.{
  HeaderProcessed, trusted_height_of, update_state-HeaderProcessed,
  submit_misbehaviour-MisbehaviourProcessed,
}
use ethereum_elc.Client.Membership.{verify_membership, verify_non_membership}
use ethereum_elc.Client.Membership.Verified.{
  verify_membership-MembershipVerified, verify_non_membership-NonMembershipVerified,
}
use ethereum_elc.Laws.{IsLawful, IsCodec}
use ethereum_elc.Chain.{Chain, host_at, Reach}
use ethereum_elc.Chain.View.{rewritten, read-Holds, Reach-view}

module _ ⦃C : Crates⦄ ⦃S : Services⦄ where
  open C use {ClientId}

  -- The result of an update was stored in `d`; other calls led from `d` to `e`, and none of them
  -- replaced the consensus state at the update's height.
  pub record Recorded (client_id : ClientId) (r : UpdateStateData) (d e : Chain) : Type 0 where
    pub client_stored : d.client ≡ r.new_any_client_state
    pub calls : Reach client_id d e
    pub consensus_kept : e.consensus r.height ≡ success r.new_any_consensus_state

  -- Client states that differ at most in the latest height and the freeze have the same
  -- identifiers.
  pub gen_state_id_same :
      (s t : ClientState) (c : ConsensusState)
      → canonicalize s ≡ canonicalize t
      → gen_state_id s c ≡ gen_state_id t c
  unfolding gen_state_id
  gen_state_id_same s t c e = rw e

module _ ⦃C : Crates⦄ ⦃S : Services⦄ (L : IsLawful) (K : IsCodec) where
  open C use {
    Any, ClientId, Height, Time, StateId, MembershipValue, trusted_height, membership_message_new,
  }

  -- What a later call reads at the update's height has the identifier that the update ended with.
  Recorded-id :
      (c d e : Chain) (now later : Time) (client_id : ClientId) (h : Header) (r : UpdateStateData)
      (p : HeaderProcessed (host_at c now) client_id h r) {client : ClientState}
      {consensus : ConsensusState}
      → Recorded client_id r d e
      → StatesRead (host_at e later) client_id r.height client consensus
      → gen_state_id client consensus ≡ ok r.message.post_state_id
  Recorded-id c d e now later client_id h r p {client} {consensus} stored s =
      let client_again =
        rewritten L K p.client p.new_client p.states.any_client p.states.client_read _ _
          p.accepted.new_client_state p.returned.client_written in
      let (t, held, same, _, _) =
        Reach-view L K client_id p.new_client stored.calls (rw stored.client_stored client_again) in
      let (read, _) = read-Holds e later client_id r.height s held in
      let consensus_again : consensus_state_from_any r.new_any_consensus_state ≡ ok consensus =
        ground (arith, s.consensus_read, s.stored_consensus, stored.consensus_kept) in
      let equal =
        ConsensusRoundTrip.consensus_state_reread L K p.new_consensus p.returned.consensus_written
          consensus_again in
      let ids = gen_state_id_same t p.new_client p.new_consensus same in
      let post = p.returned.message_known in
      rw (read, equal, ids) (ground (arith, p.returned.post_known))

  -- If an update returned and its result was recorded, then any further calls returned without
  -- replacing the consensus state at the update's height, and then an update that trusts that
  -- height returned, the message of the later update names as its previous height the height of
  -- the first one, and as its previous state identifier the post state identifier of the first
  -- one. This is for crates that keep the assumptions of Laws.
  pub update_state-linked :
      (c d e : Chain) (now later : Time) (client_id : ClientId) (h k : Header)
      (r q : UpdateStateData)
      → update_state (host_at c now) client_id h ≡ ok r
      → Recorded client_id r d e
      → trusted_height_of k ≡ r.height
      → update_state (host_at e later) client_id k ≡ ok q
      → (q.message.prev_height ≡ some r.height)
        × (q.message.prev_state_id ≡ some r.message.post_state_id)
  update_state-linked c d e now later client_id h k r q first stored trusts second =
      let p = (update_state-HeaderProcessed _ _ _ _).0 first in
      let n = (update_state-HeaderProcessed _ _ _ _).0 second in
      let id = Recorded-id c d e now later client_id h r p stored (rw trusts at n.states) in
      let prev = n.returned.message_known in
      (ground (arith, trusts), ground (arith, id, n.returned.prev_known))

  -- If an update returned and its result was recorded, then any further calls returned without
  -- replacing the consensus state at the update's height, and then misbehaviour that trusts that
  -- height was submitted and the call returned, its message lists exactly one previous state, at
  -- the height of the update and with the post state identifier of the update. This is for crates
  -- that keep the assumptions of Laws.
  pub submit_misbehaviour-linked :
      (c d e : Chain) (now later : Time) (client_id : ClientId) (h : Header) (r : UpdateStateData)
      (any_message : Any) (m : Misbehaviour) (q : MisbehaviourReport)
      → update_state (host_at c now) client_id h ≡ ok r
      → Recorded client_id r d e
      → to_lcp_height (trusted_height m.trusted_sync_committee) ≡ r.height
      → submit_misbehaviour (host_at e later) client_id any_message m ≡ ok q
      → q.message.prev_states
        ≡ record { height = r.height; state_id = r.message.post_state_id } ∷ []
  submit_misbehaviour-linked c d e now later client_id h r any_message m q first stored trusts
        second =
      let p = (update_state-HeaderProcessed _ _ _ _).0 first in
      let n = (submit_misbehaviour-MisbehaviourProcessed _ _ _ _ _).0 second in
      let id = Recorded-id c d e now later client_id h r p stored (rw trusts at n.states) in
      let prev = n.message_known in ground (arith, id, n.prev_known, trusts)

  -- If an update returned and its result was recorded, then any further calls returned without
  -- replacing the consensus state at the update's height, and then verify_membership at that
  -- height returned, its message carries the prefix, the path, some committed value, that height
  -- and the post state identifier of the update. This is for crates that keep the assumptions of
  -- Laws.
  pub verify_membership-linked :
      (c d e : Chain) (now later : Time) (client_id : ClientId) (h : Header) (r : UpdateStateData)
      (prefix : List ℕ) (path : String) (value proof : List ℕ) (q : VerifyMembershipResult)
      → update_state (host_at c now) client_id h ≡ ok r
      → Recorded client_id r d e
      → verify_membership (host_at e later) client_id prefix path value r.height proof ≡ ok q
      → (committed : MembershipValue) × (q.message
          ≡ membership_message_new prefix path (some committed) r.height r.message.post_state_id)
  verify_membership-linked c d e now later client_id h r prefix path value proof q first stored
        second =
      let p = (update_state-HeaderProcessed _ _ _ _).0 first in
      let v = (verify_membership-MembershipVerified _ _ _ _ _ _ _ _).0 second in
      let id = Recorded-id c d e now later client_id h r p stored v.states in
      (v.committed, ground (arith, id, v.id_known, v.message_known))

  -- If an update returned and its result was recorded, then any further calls returned without
  -- replacing the consensus state at the update's height, and then verify_non_membership at that
  -- height returned, its message carries the prefix, the path, no value, that height and the post
  -- state identifier of the update. This is for crates that keep the assumptions of Laws.
  pub verify_non_membership-linked :
      (c d e : Chain) (now later : Time) (client_id : ClientId) (h : Header) (r : UpdateStateData)
      (prefix : List ℕ) (path : String) (proof : List ℕ) (q : VerifyNonMembershipResult)
      → update_state (host_at c now) client_id h ≡ ok r
      → Recorded client_id r d e
      → verify_non_membership (host_at e later) client_id prefix path r.height proof ≡ ok q
      → q.message ≡ membership_message_new prefix path none r.height r.message.post_state_id
  verify_non_membership-linked c d e now later client_id h r prefix path proof q first stored
        second =
      let p = (update_state-HeaderProcessed _ _ _ _).0 first in
      let v = (verify_non_membership-NonMembershipVerified _ _ _ _ _ _ _).0 second in
      let id = Recorded-id c d e now later client_id h r p stored v.states in
      ground (arith, id, v.id_known, v.message_known)
