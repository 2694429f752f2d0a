-- ===== src/Client/Update/Causes.antt =====
-- The causes for which `update_client` of light-client/src/client.rs refuses a message.
use ethereum_elc.Base.{◌≡◌, ok, err}
use ethereum_elc.External.{Crates}
use ethereum_elc.Errors.{Error}
use ethereum_elc.Misc.{to_lcp_height}
use ethereum_elc.ConsensusState.{ConsensusState}
use ethereum_elc.ConsensusState.Codec.{consensus_state_to_any}
use ethereum_elc.ClientState.{ClientState}
use ethereum_elc.ClientState.Codec.{client_state_to_any}
use ethereum_elc.ClientState.Update.Accepted.{HeaderAccepted, MisbehaviourAccepted}
use ethereum_elc.ClientState.Update.Refused.{HeaderRefused, MisbehaviourRefused}
use ethereum_elc.Header.{Header, header, misbehaviour}
use ethereum_elc.Header.Codec.{client_message_from_ibc}
use ethereum_elc.Misbehaviour.{Misbehaviour}
use ethereum_elc.StateId.{gen_state_id}
use ethereum_elc.Services.{Services, HostClientReader}
use ethereum_elc.Client.Read.{StatesRead}
use ethereum_elc.Client.Refused.{StatesRefused}
use ethereum_elc.Client.Update.Processed.{trusted_height_of}

module _ ⦃C : Crates⦄ ⦃S : Services⦄ where
  open C use {Any, ClientId, LcError, any_into, trusted_height}

  -- The new states of an accepted message cannot be written, or a pair has no identifier.
  pub data Unwritten (client : ClientState) (consensus : ConsensusState) (new_client : ClientState)
      (new_consensus : ConsensusState) : LcError → Type 0 where
    prev_id :
        (e : Error)
        → gen_state_id client consensus ≡ err e
        → Unwritten client consensus new_client new_consensus (S.specific_error e)
    post_id :
        (e : Error)
        → gen_state_id new_client new_consensus ≡ err e
        → Unwritten client consensus new_client new_consensus (S.specific_error e)
    new_client_state :
        (e : Error)
        → client_state_to_any new_client ≡ err e
        → Unwritten client consensus new_client new_consensus (S.specific_error e)
    new_consensus_state :
        (e : Error)
        → consensus_state_to_any new_consensus ≡ err e
        → Unwritten client consensus new_client new_consensus (S.specific_error e)

  pub data UpdateRefused (ctx : HostClientReader) (client_id : ClientId) (any_message : Any)
      : LcError → Type 0 where
    message_unreadable :
        (e : Error)
        → client_message_from_ibc (any_into any_message) ≡ err e
        → UpdateRefused ctx client_id any_message (S.specific_error e)
    header_states :
        (h : Header) (e : LcError)
        → client_message_from_ibc (any_into any_message) ≡ ok (header h)
        → StatesRefused ctx client_id (trusted_height_of h) e
        → UpdateRefused ctx client_id any_message e
    header_refused :
        (h : Header) (s : ClientState) (c : ConsensusState) (e : Error)
        → client_message_from_ibc (any_into any_message) ≡ ok (header h)
        → StatesRead ctx client_id (trusted_height_of h) s c
        → HeaderRefused s ctx.host_timestamp c h e
        → UpdateRefused ctx client_id any_message (S.specific_error e)
    header_unwritten :
        (h : Header) (s t : ClientState) (c d : ConsensusState) (e : LcError)
        → client_message_from_ibc (any_into any_message) ≡ ok (header h)
        → StatesRead ctx client_id (trusted_height_of h) s c
        → HeaderAccepted s ctx.host_timestamp c h t d
        → Unwritten s c t d e
        → UpdateRefused ctx client_id any_message e
    misbehaviour_states :
        (m : Misbehaviour) (e : LcError)
        → client_message_from_ibc (any_into any_message) ≡ ok (misbehaviour m)
        → StatesRefused ctx client_id (to_lcp_height (trusted_height m.trusted_sync_committee)) e
        → UpdateRefused ctx client_id any_message e
    misbehaviour_refused :
        (m : Misbehaviour) (s : ClientState) (c : ConsensusState) (e : Error)
        → client_message_from_ibc (any_into any_message) ≡ ok (misbehaviour m)
        → StatesRead ctx client_id (to_lcp_height (trusted_height m.trusted_sync_committee)) s c
        → MisbehaviourRefused s ctx.host_timestamp client_id c m e
        → UpdateRefused ctx client_id any_message (S.specific_error e)
    misbehaviour_unwritten :
        (m : Misbehaviour) (s t : ClientState) (c : ConsensusState) (e : LcError)
        → client_message_from_ibc (any_into any_message) ≡ ok (misbehaviour m)
        → StatesRead ctx client_id (to_lcp_height (trusted_height m.trusted_sync_committee)) s c
        → MisbehaviourAccepted s ctx.host_timestamp client_id c m t
        → Unwritten s c t c e
        → UpdateRefused ctx client_id any_message e
