-- ===== src/Client/Update/Refused.antt =====
-- Why `update_client` of light-client/src/client.rs refuses a message: every error that it returns,
-- and the call that it comes from.
use ethereum_elc.Base.{◌≡◌, ok, err, [], ◌∷◌, arith, refl, inl, inr}
use ethereum_elc.External.{Crates}
use ethereum_elc.Errors.{Error}
use ethereum_elc.Misc.{to_lcp_height}
use ethereum_elc.ConsensusState.{ConsensusState}
use ethereum_elc.ClientState.{ClientState}
use ethereum_elc.ClientState.Codec.{client_state_to_any}
use ethereum_elc.ClientState.Update.{
  check_header_and_update_state, check_misbehaviour_and_update_state,
}
use ethereum_elc.ClientState.Update.Accepted.{
  check_header-HeaderAccepted, check_misbehaviour-MisbehaviourAccepted,
}
use ethereum_elc.ClientState.Update.Refused.{
  check_header-HeaderRefused, check_misbehaviour-MisbehaviourRefused,
}
use ethereum_elc.Header.{Header, header, misbehaviour}
use ethereum_elc.Header.Codec.{client_message_from_ibc}
use ethereum_elc.Misbehaviour.{Misbehaviour}
use ethereum_elc.StateId.{gen_state_id}
use ethereum_elc.Services.{Services, HostClientReader}
use ethereum_elc.Client.{read_states}
use ethereum_elc.Client.Read.{StatesRead, read_states-StatesRead}
use ethereum_elc.Client.Refused.{read_states-StatesRefused}
use ethereum_elc.Client.Update.{
  update_client, dispatch, update_state, update_data, submit_misbehaviour, make_prev_states,
}
use ethereum_elc.Client.Update.Processed.{trusted_height_of}
use ethereum_elc.Client.Update.Causes.{
  Unwritten, prev_id, post_id, new_client_state, new_consensus_state, UpdateRefused,
  message_unreadable, header_states, header_refused, header_unwritten, misbehaviour_states,
  misbehaviour_refused, misbehaviour_unwritten,
}

module _ ⦃C : Crates⦄ ⦃S : Services⦄ where
  open C use {Any, ClientId, LcError, any_into, trusted_height}

  update_data-Unwritten :
      (h : Header) (client : ClientState) (consensus : ConsensusState) (new_client : ClientState)
      (new_consensus : ConsensusState) (e : LcError)
      → update_data h client consensus new_client new_consensus ≡ err e
      → Unwritten client consensus new_client new_consensus e
  unfolding update_data
  update_data-Unwritten h client consensus new_client new_consensus e returned =
      grind (arith, prev_id, post_id, new_client_state, new_consensus_state)

  -- At a height whose states were read, the report of the states fails only on their identifier.
  make_prev_states-err :
      (ctx : HostClientReader) (client_id : ClientId) (height : C.Height) {s : ClientState}
      {c : ConsensusState} {e : Error}
      → StatesRead ctx client_id height s c
      → make_prev_states ctx client_id s (height ∷ []) ≡ err e
      → gen_state_id s c ≡ err e
  unfolding make_prev_states ethereum_elc.Base.collect
  make_prev_states-err ctx client_id height p h = ground arith

  -- The steps at which a header fails.
  module _ (ctx : HostClientReader) (client_id : ClientId) (any_message : Any) (h : Header)
      (read : client_message_from_ibc (any_into any_message) ≡ ok (header h)) where
    header_unread :
        (e : LcError)
        → read_states ctx client_id (trusted_height_of h) ≡ err e
        → UpdateRefused ctx client_id any_message e
    header_unread e r = header_states h e read (read_states-StatesRefused _ _ _ e r)

    header_rejected :
        (x : ClientState × ConsensusState) (e : Error)
        → read_states ctx client_id (trusted_height_of h) ≡ ok x
        → check_header_and_update_state x.0 ctx.host_timestamp x.1 h ≡ err e
        → UpdateRefused ctx client_id any_message (S.specific_error e)
    header_rejected x e r refused =
        header_refused h x.0 x.1 e read ((read_states-StatesRead _ _ _ _ _).0 r)
          (check_header-HeaderRefused _ _ _ _ e refused)

    header_stuck :
        (x y : ClientState × ConsensusState) (e : LcError)
        → read_states ctx client_id (trusted_height_of h) ≡ ok x
        → check_header_and_update_state x.0 ctx.host_timestamp x.1 h ≡ ok y
        → update_data h x.0 x.1 y.0 y.1 ≡ err e
        → UpdateRefused ctx client_id any_message e
    header_stuck x y e r accepted failed =
        header_unwritten h x.0 y.0 x.1 y.1 e read ((read_states-StatesRead _ _ _ _ _).0 r)
          ((check_header-HeaderAccepted _ _ _ _ _ _).0 accepted)
          (update_data-Unwritten h _ _ _ _ e failed)

  -- The steps at which evidence fails.
  module _ (ctx : HostClientReader) (client_id : ClientId) (any_message : Any) (m : Misbehaviour)
      (read : client_message_from_ibc (any_into any_message) ≡ ok (misbehaviour m)) where
    abbrev trusts : C.Height
    trusts = to_lcp_height (trusted_height m.trusted_sync_committee)

    misbehaviour_unread :
        (e : LcError)
        → read_states ctx client_id trusts ≡ err e
        → UpdateRefused ctx client_id any_message e
    misbehaviour_unread e r = misbehaviour_states m e read (read_states-StatesRefused _ _ _ e r)

    misbehaviour_rejected :
        (x : ClientState × ConsensusState) (e : Error)
        → read_states ctx client_id trusts ≡ ok x
        → check_misbehaviour_and_update_state x.0 ctx.host_timestamp client_id x.1 m ≡ err e
        → UpdateRefused ctx client_id any_message (S.specific_error e)
    misbehaviour_rejected x e r refused =
        misbehaviour_refused m x.0 x.1 e read ((read_states-StatesRead _ _ _ _ _).0 r)
          (check_misbehaviour-MisbehaviourRefused _ _ _ _ _ e refused)

    misbehaviour_stuck :
        (x : ClientState × ConsensusState) (t : ClientState) (e : LcError)
        → read_states ctx client_id trusts ≡ ok x
        → check_misbehaviour_and_update_state x.0 ctx.host_timestamp client_id x.1 m ≡ ok t
        → Unwritten x.0 x.1 t x.1 e
        → UpdateRefused ctx client_id any_message e
    misbehaviour_stuck x t e r accepted failed =
        misbehaviour_unwritten m x.0 t x.1 e read ((read_states-StatesRead _ _ _ _ _).0 r)
          ((check_misbehaviour-MisbehaviourAccepted _ _ _ _ _ _).0 accepted) failed

    misbehaviour_unlisted :
        (x : ClientState × ConsensusState) (t : ClientState) (e : Error)
        → read_states ctx client_id trusts ≡ ok x
        → check_misbehaviour_and_update_state x.0 ctx.host_timestamp client_id x.1 m ≡ ok t
        → make_prev_states ctx client_id x.0 (trusts ∷ []) ≡ err e
        → UpdateRefused ctx client_id any_message (S.specific_error e)
    misbehaviour_unlisted x t e r accepted failed =
        misbehaviour_stuck x t (S.specific_error e) r accepted (
          prev_id e (
            make_prev_states-err ctx client_id trusts ((read_states-StatesRead _ _ _ _ _).0 r)
              failed))

    misbehaviour_unfrozen :
        (x : ClientState × ConsensusState) (t : ClientState) (e : Error)
        → read_states ctx client_id trusts ≡ ok x
        → check_misbehaviour_and_update_state x.0 ctx.host_timestamp client_id x.1 m ≡ ok t
        → client_state_to_any t ≡ err e
        → UpdateRefused ctx client_id any_message (S.specific_error e)
    misbehaviour_unfrozen x t e r accepted failed =
        misbehaviour_stuck x t (S.specific_error e) r accepted (new_client_state e failed)

  update_state-UpdateRefused :
      (ctx : HostClientReader) (client_id : ClientId) (any_message : Any) (h : Header) (e : LcError)
      → client_message_from_ibc (any_into any_message) ≡ ok (header h)
      → update_state ctx client_id h ≡ err e
      → UpdateRefused ctx client_id any_message e
  unfolding update_state
  update_state-UpdateRefused ctx client_id any_message h e read returned =
      grind (arith, header_unread, header_rejected, header_stuck)

  submit_misbehaviour-UpdateRefused :
      (ctx : HostClientReader) (client_id : ClientId) (any_message : Any) (m : Misbehaviour)
      (e : LcError)
      → client_message_from_ibc (any_into any_message) ≡ ok (misbehaviour m)
      → submit_misbehaviour ctx client_id any_message m ≡ err e
      → UpdateRefused ctx client_id any_message e
  unfolding submit_misbehaviour
  submit_misbehaviour-UpdateRefused ctx client_id any_message m e read returned = grind (
    arith, misbehaviour_unread, misbehaviour_rejected, misbehaviour_unlisted, misbehaviour_unfrozen,
  )

  -- Every error of update_client has one of the listed causes, with the error that belongs to it:
  -- the message does not decode, the states at its trusted height are missing, do not read or are
  -- frozen, one of the checks of the header or of the misbehaviour refused it, or the message was
  -- accepted and a state cannot be written or a pair of states not identified.
  pub update_client-UpdateRefused :
      (ctx : HostClientReader) (client_id : ClientId) (any_message : Any) (e : LcError)
      → update_client ctx client_id any_message ≡ err e
      → UpdateRefused ctx client_id any_message e
  unfolding update_client dispatch
  update_client-UpdateRefused ctx client_id any_message e h =
      grind
        (arith, message_unreadable, update_state-UpdateRefused, submit_misbehaviour-UpdateRefused)
