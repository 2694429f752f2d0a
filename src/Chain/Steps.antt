-- ===== src/Chain/Steps.antt =====
-- The client state that one call of light-client/src/client.rs leaves, field by field.
use Prim.Native.Nat.{max}
use ethereum_elc.Base.{◌≡◌, some, ok, arith}
use ethereum_elc.External.{Crates}
use ethereum_elc.Misc.{to_lcp_height}
use ethereum_elc.ClientState.{ClientState}
use ethereum_elc.Header.{Header}
use ethereum_elc.Misbehaviour.{Misbehaviour}
use ethereum_elc.Services.{Services, UpdateStateData, MisbehaviourReport}
use ethereum_elc.Client.Update.{update_state, submit_misbehaviour}
use ethereum_elc.Client.Update.Processed.{
  update_state-HeaderProcessed, submit_misbehaviour-MisbehaviourProcessed,
}
use ethereum_elc.Laws.{IsLawful, IsCodec}
use ethereum_elc.Chain.{Chain, Holds, host_at}
use ethereum_elc.Chain.View.{read-Holds, rewritten}

module _ ⦃C : Crates⦄ ⦃S : Services⦄ (L : IsLawful) (K : IsCodec) where
  open C use {Any, ClientId, Time, block_number, trusted_height}

  pub header-client :
      (c d : Chain) (now : Time) (client_id : ClientId) (h : Header) (r : UpdateStateData)
      (s t : ClientState)
      → update_state (host_at c now) client_id h ≡ ok r
      → d.client ≡ r.new_any_client_state
      → Holds c s
      → Holds d t
      → t ≡ record s {
        latest_execution_block_number =
            max s.latest_execution_block_number (block_number h.execution_update);
      }
  header-client c d now client_id h r s t returned stored holds held =
      let p = (update_state-HeaderProcessed _ _ _ _).0 returned in
      let (same, _) = read-Holds c now client_id _ p.states holds in
      let e = p.accepted.new_client_state in
      let again =
        rewritten L K s p.new_client c.client holds _ _ (rw same at e) p.returned.client_written in
      ground arith

  pub misbehaviour-client :
      (c d : Chain) (now : Time) (client_id : ClientId) (any_message : Any) (m : Misbehaviour)
      (r : MisbehaviourReport) (s t : ClientState)
      → submit_misbehaviour (host_at c now) client_id any_message m ≡ ok r
      → d.client ≡ r.new_any_client_state
      → Holds c s
      → Holds d t
      → t ≡ record s {
        frozen_height = some (to_lcp_height (trusted_height m.trusted_sync_committee));
      }
  misbehaviour-client c d now client_id any_message m r s t returned stored holds held =
      let p = (submit_misbehaviour-MisbehaviourProcessed _ _ _ _ _).0 returned in
      let (same, _) = read-Holds c now client_id _ p.states holds in
      let e = p.accepted.new_client_state in
      let again = rewritten L K s p.new_client c.client holds _ _ (rw same at e) p.client_written in
      ground arith
