-- ===== src/Client/Update/Updated.antt =====
-- light-client/src/client.rs: when `update_client` returns a result, whichever kind of message it is
-- given.
use ethereum_elc.Base.{◌≡◌, ◌↔◌, ok, arith, map_err-bind-eq-ok, >>=-eq-ok}
use ethereum_elc.External.{Crates}
use ethereum_elc.Header.{Header, ClientMessage, header, misbehaviour}
use ethereum_elc.Header.Codec.{client_message_from_ibc}
use ethereum_elc.Misbehaviour.{Misbehaviour}
use ethereum_elc.Services.{Services, HostClientReader, UpdateStateData, MisbehaviourReport}
use ethereum_elc.Client.Update.{update_client, dispatch, update_state, submit_misbehaviour}
use ethereum_elc.Client.Update.Processed.{
  HeaderProcessed, MisbehaviourProcessed, update_state-HeaderProcessed,
  submit_misbehaviour-MisbehaviourProcessed,
}

module _ ⦃C : Crates⦄ ⦃S : Services⦄ where
  open C use {Any, ClientId, UpdateClientResult, any_into}

  pub data ClientUpdated (ctx : HostClientReader) (client_id : ClientId) (any_message : Any)
      (x : UpdateClientResult) : Type 0 where
    by_header :
        (h : Header) (r : UpdateStateData)
        → client_message_from_ibc (any_into any_message) ≡ ok (header h)
        → HeaderProcessed ctx client_id h r
        → x ≡ S.update_result_from_state r
        → ClientUpdated ctx client_id any_message x
    by_misbehaviour :
        (m : Misbehaviour) (r : MisbehaviourReport)
        → client_message_from_ibc (any_into any_message) ≡ ok (misbehaviour m)
        → MisbehaviourProcessed ctx client_id any_message m r
        → x ≡ S.update_result_from_misbehaviour r
        → ClientUpdated ctx client_id any_message x

  dispatch-ClientUpdated :
      (ctx : HostClientReader) (client_id : ClientId) (any_message : Any) (message : ClientMessage)
      (x : UpdateClientResult)
      → client_message_from_ibc (any_into any_message) ≡ ok message
      → dispatch ctx client_id any_message message ≡ ok x
      → ClientUpdated ctx client_id any_message x
  unfolding dispatch
  dispatch-ClientUpdated ctx client_id any_message (header h) x read e =
      let (r, returned, e) = >>=-eq-ok (update_state ctx client_id h) _ e in
      by_header h r read ((update_state-HeaderProcessed _ _ _ _).0 returned) (ground arith)
  dispatch-ClientUpdated ctx client_id any_message (misbehaviour m) x read e =
      let (r, returned, e) = >>=-eq-ok (submit_misbehaviour ctx client_id any_message m) _ e in
      by_misbehaviour m r read ((submit_misbehaviour-MisbehaviourProcessed _ _ _ _ _).0 returned)
        (ground arith)

  ClientUpdated-update_client :
      (ctx : HostClientReader) (client_id : ClientId) (any_message : Any) (x : UpdateClientResult)
      → ClientUpdated ctx client_id any_message x
      → update_client ctx client_id any_message ≡ ok x
  unfolding update_client dispatch
  ClientUpdated-update_client ctx client_id any_message x (by_header h r read p result) =
      rw (read, (update_state-HeaderProcessed _ _ _ _).1 p, result)
  ClientUpdated-update_client ctx client_id any_message x (by_misbehaviour m r read p result) =
      rw (read, (submit_misbehaviour-MisbehaviourProcessed _ _ _ _ _).1 p, result)

  -- update_client returns a result exactly if the message decodes as a header that is processed,
  -- or as misbehaviour that is processed, in the sense of the two conditions for update_state and
  -- submit_misbehaviour, and the result is the conversion of what these return.
  pub update_client-ClientUpdated :
      (ctx : HostClientReader) (client_id : ClientId) (any_message : Any) (x : UpdateClientResult)
      → (update_client ctx client_id any_message ≡ ok x) ↔ ClientUpdated ctx client_id any_message x
  unfolding update_client
  update_client-ClientUpdated ctx client_id any_message x = (
    λ e.
        let (message, read, e) =
          map_err-bind-eq-ok _ (client_message_from_ibc (any_into any_message)) _ e in
        dispatch-ClientUpdated ctx client_id any_message message x read e,
    λ u. ClientUpdated-update_client ctx client_id any_message x u,
  )
