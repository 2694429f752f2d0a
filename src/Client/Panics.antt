-- ===== src/Client/Panics.antt =====
-- light-client/src/client.rs: panics, which `unwrap` and `expect` could cause in any of the calls.
use ethereum_elc.Base.{String, List, ℕ, arith, NeverPanics, panic_rules, NeverPanics-collect}
use ethereum_elc.External.{Crates}
use ethereum_elc.ConsensusState.{ConsensusState, validate_consensus_state}
use ethereum_elc.ConsensusState.Codec.{consensus_state_from_any, consensus_state_to_any}
use ethereum_elc.ConsensusState.Codec.RoundTrip.{consensus_state_try_from_no_panic}
use ethereum_elc.ClientState.{ClientState, validate_client_state}
use ethereum_elc.ClientState.Codec.{client_state_from_any, client_state_to_any}
use ethereum_elc.ClientState.Codec.RoundTrip.{client_state_try_from_no_panic}
use ethereum_elc.ClientState.Update.{
  check_header_and_update_state, check_misbehaviour_and_update_state,
}
use ethereum_elc.ClientState.Update.Accepted.{check_header_no_panic, check_misbehaviour_no_panic}
use ethereum_elc.Header.{Header, ClientMessage, header, misbehaviour}
use ethereum_elc.Header.Codec.{client_message_from_ibc}
use ethereum_elc.Header.Codec.Kinds.{client_message_from_ibc_no_panic}
use ethereum_elc.Misbehaviour.{Misbehaviour}
use ethereum_elc.StateId.{gen_state_id}
use ethereum_elc.Services.{Services, HostClientReader}
use ethereum_elc.Client.{read_states, client_latest_height, create_client}
use ethereum_elc.Client.Update.{
  update_data, update_state, submit_misbehaviour, prev_state, make_prev_states, dispatch,
  update_client,
}
use ethereum_elc.Client.Membership.{verify_membership, verify_non_membership}
use ethereum_elc.Laws.{IsLawful}

module _ ⦃C : Crates⦄ ⦃S : Services⦄ (L : IsLawful) where
  open C use {Any, ClientId, Time, Height, any_into}

  client_state_from_any-NeverPanics : (any : Any) → NeverPanics (client_state_from_any any)
  unfolding client_state_from_any
  client_state_from_any-NeverPanics any = record {
    returns = λ h. grind (arith, client_state_try_from_no_panic L);
  }

  consensus_state_from_any-NeverPanics : (any : Any) → NeverPanics (consensus_state_from_any any)
  unfolding consensus_state_from_any
  consensus_state_from_any-NeverPanics any = record {
    returns = λ h. grind (arith, consensus_state_try_from_no_panic L);
  }

  gen_state_id-NeverPanics :
      (client : ClientState) (consensus : ConsensusState)
      → NeverPanics (gen_state_id client consensus)
  unfolding gen_state_id client_state_to_any consensus_state_to_any
  gen_state_id-NeverPanics client consensus = record { returns = λ h. ground arith }

  client_state_to_any-NeverPanics :
      (client : ClientState) → NeverPanics (client_state_to_any client)
  unfolding client_state_to_any
  client_state_to_any-NeverPanics client = record { returns = λ h. ground arith }

  consensus_state_to_any-NeverPanics : (s : ConsensusState) → NeverPanics (consensus_state_to_any s)
  unfolding consensus_state_to_any
  consensus_state_to_any-NeverPanics s = record { returns = λ h. ground arith }

  validate_client_state-NeverPanics : (s : ClientState) → NeverPanics (validate_client_state s)
  unfolding validate_client_state
  validate_client_state-NeverPanics s = record { returns = λ h. ground arith }

  validate_consensus_state-NeverPanics :
      (s : ConsensusState) → NeverPanics (validate_consensus_state s)
  unfolding validate_consensus_state
  validate_consensus_state-NeverPanics s = record { returns = λ h. ground arith }

  check_header-NeverPanics :
      (self : ClientState) (now : Time) (state : ConsensusState) (h : Header)
      → NeverPanics (check_header_and_update_state self now state h)
  check_header-NeverPanics self now state h = record {
    returns = check_header_no_panic self now state h;
  }

  check_misbehaviour-NeverPanics :
      (self : ClientState) (now : Time) (client_id : ClientId) (state : ConsensusState)
      (m : Misbehaviour)
      → NeverPanics (check_misbehaviour_and_update_state self now client_id state m)
  check_misbehaviour-NeverPanics self now client_id state m = record {
    returns = check_misbehaviour_no_panic self now client_id state m;
  }

  client_message-NeverPanics : (any : Any) → NeverPanics (client_message_from_ibc (any_into any))
  client_message-NeverPanics any = record {
    returns = client_message_from_ibc_no_panic (any_into any);
  }

  ruleset parts = (
    panic_rules, client_state_from_any-NeverPanics, consensus_state_from_any-NeverPanics,
    gen_state_id-NeverPanics, client_state_to_any-NeverPanics, consensus_state_to_any-NeverPanics,
    validate_client_state-NeverPanics, validate_consensus_state-NeverPanics,
    check_header-NeverPanics, check_misbehaviour-NeverPanics, client_message-NeverPanics,
  )

  read_states-NeverPanics :
      (ctx : HostClientReader) (client_id : ClientId) (height : Height)
      → NeverPanics (read_states ctx client_id height)
  unfolding read_states
  read_states-NeverPanics ctx client_id height = search parts depth 20

  update_data-NeverPanics :
      (h : Header) (client : ClientState) (consensus : ConsensusState) (new_client : ClientState)
      (new_consensus : ConsensusState)
      → NeverPanics (update_data h client consensus new_client new_consensus)
  unfolding update_data
  update_data-NeverPanics h client consensus new_client new_consensus = search parts depth 20

  ruleset calls = (parts, read_states-NeverPanics, update_data-NeverPanics)

  pub client_latest_height-NeverPanics :
      (ctx : HostClientReader) (client_id : ClientId)
      → NeverPanics (client_latest_height ctx client_id)
  unfolding client_latest_height
  client_latest_height-NeverPanics ctx client_id = search calls depth 20

  -- create_client does not panic, for any two encoded states. This is for crates that keep the
  -- assumptions of Laws.
  pub create_client-NeverPanics :
      (any_client any_consensus : Any) → NeverPanics (create_client any_client any_consensus)
  unfolding create_client
  create_client-NeverPanics any_client any_consensus = search calls depth 30

  -- verify_membership does not panic, for any host, path, value, height and proof. This is for
  -- crates that keep the assumptions of Laws.
  pub verify_membership-NeverPanics :
      (ctx : HostClientReader) (client_id : ClientId) (prefix : List ℕ) (path : String)
      (value : List ℕ) (proof_height : Height) (proof : List ℕ)
      → NeverPanics (verify_membership ctx client_id prefix path value proof_height proof)
  unfolding verify_membership
  verify_membership-NeverPanics ctx client_id prefix path value proof_height proof =
      search calls depth 30

  -- verify_non_membership does not panic, for any host, path, height and proof. This is for crates
  -- that keep the assumptions of Laws.
  pub verify_non_membership-NeverPanics :
      (ctx : HostClientReader) (client_id : ClientId) (prefix : List ℕ) (path : String)
      (proof_height : Height) (proof : List ℕ)
      → NeverPanics (verify_non_membership ctx client_id prefix path proof_height proof)
  unfolding verify_non_membership
  verify_non_membership-NeverPanics ctx client_id prefix path proof_height proof =
      search calls depth 30

  update_state-NeverPanics :
      (ctx : HostClientReader) (client_id : ClientId) (h : Header)
      → NeverPanics (update_state ctx client_id h)
  unfolding update_state
  update_state-NeverPanics ctx client_id h = search calls depth 40

  prev_state-NeverPanics :
      (ctx : HostClientReader) (client_id : ClientId) (client : ClientState) (height : Height)
      → NeverPanics (prev_state ctx client_id client height)
  unfolding prev_state
  prev_state-NeverPanics ctx client_id client height = search calls depth 20

  make_prev_states-NeverPanics :
      (ctx : HostClientReader) (client_id : ClientId) (client : ClientState) (heights : List Height)
      → NeverPanics (make_prev_states ctx client_id client heights)
  unfolding make_prev_states
  make_prev_states-NeverPanics ctx client_id client heights =
      NeverPanics-collect _ heights (prev_state-NeverPanics ctx client_id client)

  submit_misbehaviour-NeverPanics :
      (ctx : HostClientReader) (client_id : ClientId) (any_message : Any) (m : Misbehaviour)
      → NeverPanics (submit_misbehaviour ctx client_id any_message m)
  unfolding submit_misbehaviour
  submit_misbehaviour-NeverPanics ctx client_id any_message m =
      search (calls, make_prev_states-NeverPanics) depth 40

  dispatch-NeverPanics :
      (ctx : HostClientReader) (client_id : ClientId) (any_message : Any) (message : ClientMessage)
      → NeverPanics (dispatch ctx client_id any_message message)
  unfolding dispatch
  dispatch-NeverPanics ctx client_id any_message (header h) =
      search (calls, update_state-NeverPanics) depth 20
  dispatch-NeverPanics ctx client_id any_message (misbehaviour m) =
      search (calls, submit_misbehaviour-NeverPanics) depth 20

  -- update_client does not panic, for any host, client and message, the unwraps of hash
  -- conversions included. This is for crates that keep the assumptions of Laws.
  pub update_client-NeverPanics :
      (ctx : HostClientReader) (client_id : ClientId) (any_message : Any)
      → NeverPanics (update_client ctx client_id any_message)
  unfolding update_client
  update_client-NeverPanics ctx client_id any_message =
      search (calls, dispatch-NeverPanics) depth 20
