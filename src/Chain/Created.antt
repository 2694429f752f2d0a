-- ===== src/Chain/Created.antt =====
-- A client from its creation on: `create_client` of light-client/src/client.rs, and then any calls.
use Prim.Native.Nat.{◌≤◌}
use ethereum_elc.Base.{◌≡◌, none, some, ok, success, arith, [], ◌∷◌}
use ethereum_elc.Misc.{to_lcp_height}
use ethereum_elc.External.{Crates}
use ethereum_elc.ClientState.{ClientState, canonicalize, validate_client_state, latest_height}
use ethereum_elc.ClientState.Checks.{IsInitialized, validate_client_state-IsInitialized}
use ethereum_elc.Header.{Header}
use ethereum_elc.StateId.{gen_state_id}
use ethereum_elc.Services.{
  Services, CreateClientResult, UpdateStateData, UpdateStateProxyMessage, empty,
}
use ethereum_elc.Client.{create_client}
use ethereum_elc.Client.Create.{Created, create_client-Created}
use ethereum_elc.Client.Update.{update_state}
use ethereum_elc.Client.Update.Processed.{trusted_height_of, update_state-HeaderProcessed}
use ethereum_elc.Laws.{IsLawful, IsCodec}
use ethereum_elc.Chain.{Chain, Holds, host_at, Reach}
use ethereum_elc.Chain.View.{read-Holds, Reach-view}
use ethereum_elc.Chain.Links.{gen_state_id_same}

module _ ⦃C : Crates⦄ where
  -- What `validate` looks at is set in a state with the same parameters and a height no lower.
  IsInitialized-kept :
      (s t : ClientState)
      → canonicalize t ≡ canonicalize s
      → s.latest_execution_block_number ≤ t.latest_execution_block_number
      → IsInitialized s
      → IsInitialized t
  IsInitialized-kept s t same grown i = ground arith

module _ ⦃C : Crates⦄ ⦃S : Services⦄ where
  open C use {Any}

  -- The message that `create_client` returns.
  abbrev first_message :
      {any_client any_consensus : Any} {r : CreateClientResult}
      → Created any_client any_consensus r
      → UpdateStateProxyMessage
  first_message {any_client = any_client} p = record {
    prev_height = none;
    prev_state_id = none;
    post_height = to_lcp_height (latest_height p.client);
    post_state_id = p.state_id;
    emitted_states =
        record { height = to_lcp_height (latest_height p.client); state = any_client } ∷ [];
    timestamp = p.consensus.timestamp;
    context = empty;
  }

module _ ⦃C : Crates⦄ ⦃S : Services⦄ (L : IsLawful) (K : IsCodec) where
  open C use {Any, ClientId, Time}

  -- If create_client returned and the chain stored its client state, then after any sequence of
  -- calls that returned the stored client state reads as a state that validate accepts. This is
  -- for crates that keep the assumptions of Laws.
  pub create_client-validate :
      (any_client any_consensus : Any) (r : CreateClientResult) (client_id : ClientId) {c d : Chain}
      → create_client any_client any_consensus ≡ ok r
      → c.client ≡ any_client
      → Reach client_id c d
      → (s : ClientState) × Holds d s × (validate_client_state s ≡ ok tt)
  create_client-validate any_client any_consensus r client_id created stored calls =
      let p = (create_client-Created _ _ _).0 created in
      let (s, held, same, grown, _) =
        Reach-view L K client_id p.client calls (rw stored p.client_read) in
      (
        s,
        held,
        (validate_client_state-IsInitialized s).1
            (IsInitialized-kept p.client s same grown p.client_initialized),
      )

  -- If create_client returned, the chain stored its client state, any calls returned that left its
  -- consensus state at the returned height, and then an update that trusts that height returned,
  -- the message of create_client is the conversion of an update message whose post state
  -- identifier is the previous state identifier of the update. This is for crates that keep the
  -- assumptions of Laws.
  pub create_client-linked :
      (any_client any_consensus : Any) (r : CreateClientResult) (client_id : ClientId) (c d : Chain)
      (later : Time) (k : Header) (q : UpdateStateData)
      → create_client any_client any_consensus ≡ ok r
      → c.client ≡ any_client
      → Reach client_id c d
      → d.consensus r.height ≡ success any_consensus
      → trusted_height_of k ≡ r.height
      → update_state (host_at d later) client_id k ≡ ok q
      → (m : UpdateStateProxyMessage) × (r.message ≡ S.update_message_into m)
        × (q.message.prev_state_id ≡ some m.post_state_id)
  create_client-linked any_client any_consensus r client_id c d later k q created stored calls kept
        trusts updated =
      let p = (create_client-Created _ _ _).0 created in
      let n = (update_state-HeaderProcessed _ _ _ _).0 updated in
      let (s, held, same, _, _) =
        Reach-view L K client_id p.client calls (rw stored p.client_read) in
      let (read, _) = read-Holds d later client_id _ n.states held in
      let ids = gen_state_id_same s p.client p.consensus same in
      let opened : p.consensus ≡ n.consensus = ground (
        arith, p.consensus_read, n.states.consensus_read, n.states.stored_consensus, kept, trusts,
      ) in
      let known : gen_state_id n.client n.consensus ≡ ok p.state_id =
        rw (read, ← opened, ids) p.id_known in
      let prev = n.returned.message_known in
      (first_message p, cc p.result, ground (arith, known, n.returned.prev_known))
