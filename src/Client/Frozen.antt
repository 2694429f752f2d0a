-- ===== src/Client/Frozen.antt =====
-- light-client/src/client.rs: the answers of the calls while the client is frozen.
use ethereum_elc.Base.{ℕ, String, ◌≡◌, some, List, ok, err, success, arith}
use ethereum_elc.External.{Crates}
use ethereum_elc.Errors.{client_frozen}
use ethereum_elc.Misc.{to_lcp_height}
use ethereum_elc.ClientState.{ClientState}
use ethereum_elc.ClientState.Codec.{client_state_from_any}
use ethereum_elc.Header.{ClientMessage, header, misbehaviour}
use ethereum_elc.Header.Codec.{client_message_from_ibc}
use ethereum_elc.Services.{Services, HostClientReader}
use ethereum_elc.Client.{read_states}
use ethereum_elc.Client.Update.{update_client, dispatch, update_state, submit_misbehaviour}
use ethereum_elc.Client.Membership.{verify_membership, verify_non_membership}

module _ ⦃C : Crates⦄ ⦃S : Services⦄ where
  open C use {Any, ClientId, Height, any_into, trusted_height}

  -- The height of the consensus state that a message asks the client to trust.
  abbrev pub message_height : ClientMessage → Height
  message_height (header h) = to_lcp_height (trusted_height h.trusted_sync_committee)
  message_height (misbehaviour m) = to_lcp_height (trusted_height m.trusted_sync_committee)

  -- The host holds, for this client, a client state that reads as frozen at `h`.
  pub record IsFrozenAt (ctx : HostClientReader) (client_id : ClientId) (h : Height) : Type 0 where
    pub any_client : Any
    pub client : ClientState
    pub stored : ctx.client_state client_id ≡ success any_client
    pub client_read : client_state_from_any any_client ≡ ok client
    pub frozen : client.frozen_height ≡ some h

  -- If the host holds a client state that reads as frozen, and a consensus state at the height
  -- that a decoded message trusts, update_client returns the error that the client is frozen, for
  -- headers and for misbehaviour.
  pub update_client_frozen :
      (ctx : HostClientReader) (client_id : ClientId) (any_message : Any) (message : ClientMessage)
      (any_consensus : Any) {h : Height}
      → IsFrozenAt ctx client_id h
      → client_message_from_ibc (any_into any_message) ≡ ok message
      → ctx.consensus_state client_id (message_height message) ≡ success any_consensus
      → update_client ctx client_id any_message ≡ err (S.specific_error (client_frozen client_id))
  unfolding read_states update_client dispatch update_state submit_misbehaviour
  update_client_frozen ctx client_id any_message (header m) any_consensus f e held = ground arith
  update_client_frozen ctx client_id any_message (misbehaviour m) any_consensus f e held =
      ground arith

  -- If the host holds a client state that reads as frozen, and a consensus state at the proof's
  -- height, both verify_membership and verify_non_membership return the error that the client is
  -- frozen.
  pub verify_membership_frozen :
      (ctx : HostClientReader) (client_id : ClientId) (prefix : List ℕ) (path : String)
      (value : List ℕ) (proof_height : Height) (proof : List ℕ) (any_consensus : Any) {h : Height}
      → IsFrozenAt ctx client_id h
      → ctx.consensus_state client_id proof_height ≡ success any_consensus
      → (verify_membership ctx client_id prefix path value proof_height proof
          ≡ err (S.specific_error (client_frozen client_id)))
        × (verify_non_membership ctx client_id prefix path proof_height proof
            ≡ err (S.specific_error (client_frozen client_id)))
  unfolding read_states verify_membership verify_non_membership
  verify_membership_frozen ctx client_id prefix path value proof_height proof any_consensus f held =
      (ground arith, ground arith)
