-- ===== src/ClientState/Update/Order.antt =====
-- light-client/src/client_state.rs: the check of a header, and the check of misbehaviour, at other latest
-- heights of the client.
use Prim.Native.Nat.{max}
use ethereum_elc.Base.{ℕ, ◌≡◌, ok, refl}
use ethereum_elc.External.{Crates}
use ethereum_elc.ConsensusState.{ConsensusState}
use ethereum_elc.ClientState.{ClientState, build_context}
use ethereum_elc.ClientState.Update.{
  check_header_and_update_state, check_misbehaviour_and_update_state,
}
use ethereum_elc.ClientState.Update.Accepted.{
  HeaderAccepted, check_header-HeaderAccepted, check_misbehaviour-MisbehaviourAccepted,
}
use ethereum_elc.Header.{Header}
use ethereum_elc.Misbehaviour.{Misbehaviour}
use ethereum_elc.Services.{Services}

module _ ⦃C : Crates⦄ ⦃S : Services⦄ where
  open C use {Time, ClientId, block_number}

  abbrev pub at_height : ClientState → ℕ → ClientState
  at_height s n = record s { latest_execution_block_number = n }

  -- A header that is accepted is accepted at any other latest height, with the same consensus
  -- state.
  pub HeaderAccepted-at_height :
      (s : ClientState) (n : ℕ) (now : Time) (state : ConsensusState) (h : Header) (t : ClientState)
      (new_state : ConsensusState)
      → HeaderAccepted s now state h t new_state
      → HeaderAccepted
          (at_height s n)
          now
          state
          h
          (at_height s (max n (block_number h.execution_update)))
          new_state
  unfolding build_context
  HeaderAccepted-at_height s n now state h t new_state a = record {
    nanos = a.nanos;
    timestamp = a.timestamp;
    trusted = a.trusted;
    committees = a.committees;
    committee_valid = a.committee_valid;
    block_nonzero = a.block_nonzero;
    nanos_known = a.nanos_known;
    timestamp_known = a.timestamp_known;
    committee_trusted = a.committee_trusted;
    updates_verified = a.updates_verified;
    account_verified = a.account_verified;
    state_not_expired = a.state_not_expired;
    header_not_future = a.header_not_future;
    committees_known = a.committees_known;
    new_client_state = refl;
    new_consensus_state = a.new_consensus_state;
  }

  accepted_height :
      (s t : ClientState) (now : Time) (state : ConsensusState) (h : Header)
      (new_state : ConsensusState)
      → check_header_and_update_state s now state h ≡ ok (t, new_state)
      → t ≡ at_height s (max s.latest_execution_block_number (block_number h.execution_update))
  accepted_height s t now state h new_state e =
      ((check_header-HeaderAccepted s now state h t new_state).0 e).new_client_state

  -- If a client state accepts a header and also accepts misbehaviour, with their own times and
  -- consensus states, then the client state that the header gave accepts the misbehaviour too, and
  -- is frozen at the same height.
  pub check_misbehaviour_after_header :
      (s t f : ClientState) (now later : Time) (client_id : ClientId) (state other : ConsensusState)
      (h : Header) (m : Misbehaviour) (new_state : ConsensusState)
      → check_header_and_update_state s now state h ≡ ok (t, new_state)
      → check_misbehaviour_and_update_state s later client_id other m ≡ ok f
      → check_misbehaviour_and_update_state t later client_id other m
        ≡ ok (record t { frozen_height = f.frozen_height })
  unfolding build_context
  check_misbehaviour_after_header s t f now later client_id state other h m new_state first second =
      let a = (check_misbehaviour-MisbehaviourAccepted _ _ _ _ _ _).0 second in
      rw (accepted_height s t now state h new_state first) (
        (check_misbehaviour-MisbehaviourAccepted _ _ _ _ _ _).1 (record {
          trusted = a.trusted;
          committee_valid = a.committee_valid;
          same_client = a.same_client;
          committee_trusted = a.committee_trusted;
          evidence_verified = a.evidence_verified;
          state_not_expired = a.state_not_expired;
          new_client_state = rw a.new_client_state;
        }))
