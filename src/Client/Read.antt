-- ===== src/Client/Read.antt =====
-- light-client/src/client.rs: what the calls read from the host before they do anything else.
use ethereum_elc.Base.{◌≡◌, ◌↔◌, none, ok, success, arith, try_with-bind-eq-ok}
use ethereum_elc.External.{Crates}
use ethereum_elc.ConsensusState.{ConsensusState}
use ethereum_elc.ConsensusState.Codec.{consensus_state_from_any}
use ethereum_elc.ClientState.{ClientState}
use ethereum_elc.ClientState.Codec.{client_state_from_any}
use ethereum_elc.Services.{Services, HostClientReader}
use ethereum_elc.Client.{read_states}

module _ ⦃C : Crates⦄ ⦃S : Services⦄ where
  open C use {Any, ClientId, Height}

  -- The states that a call reads from the host, which are well formed and not frozen.
  pub record StatesRead (ctx : HostClientReader) (client_id : ClientId) (height : Height)
      (client : ClientState) (consensus : ConsensusState) : Type 0 where
    pub any_client : Any
    pub any_consensus : Any
    pub stored_client : ctx.client_state client_id ≡ success any_client
    pub stored_consensus : ctx.consensus_state client_id height ≡ success any_consensus
    pub client_read : client_state_from_any any_client ≡ ok client
    pub unfrozen : client.frozen_height ≡ none
    pub consensus_read : consensus_state_from_any any_consensus ≡ ok consensus

  -- A call that begins by reading the states goes on only with states that are well formed.
  pub read_states-StatesRead :
      (ctx : HostClientReader) (client_id : ClientId) (height : Height) (client : ClientState)
      (consensus : ConsensusState)
      → (read_states ctx client_id height ≡ ok (client, consensus))
        ↔ StatesRead ctx client_id height client consensus
  unfolding read_states
  read_states-StatesRead ctx client_id height client consensus = (
    λ h.
        let (any_client, stored_client, h) =
          try_with-bind-eq-ok _ (ctx.client_state client_id) _ h in
        let (any_consensus, stored_consensus, h) =
          try_with-bind-eq-ok _ (ctx.consensus_state client_id height) _ h in
        record {
          any_client = any_client;
          any_consensus = any_consensus;
          stored_client = stored_client;
          stored_consensus = stored_consensus;
          client_read = ground arith;
          unfrozen = ground arith;
          consensus_read = ground arith;
        },
    λ s. ground arith,
  )
