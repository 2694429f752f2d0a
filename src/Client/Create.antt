-- ===== src/Client/Create.antt =====
-- light-client/src/client.rs: when `create_client` succeeds, and what it returns.
use ethereum_elc.Base.{◌≡◌, ◌↔◌, none, false, [], ◌∷◌, ok, arith, map_err-bind-eq-ok, reject_if}
use ethereum_elc.External.{Crates}
use ethereum_elc.Misc.{to_lcp_height}
use ethereum_elc.ConsensusState.{ConsensusState, validate_consensus_state}
use ethereum_elc.ConsensusState.Codec.{consensus_state_from_any}
use ethereum_elc.ClientState.{ClientState, validate_client_state, latest_height, is_frozen}
use ethereum_elc.ClientState.Codec.{client_state_from_any}
use ethereum_elc.ClientState.Checks.{IsInitialized, validate_client_state-IsInitialized}
use ethereum_elc.StateId.{gen_state_id}
use ethereum_elc.Services.{Services, CreateClientResult, empty}
use ethereum_elc.Client.{create_client}

module _ ⦃C : Crates⦄ ⦃S : Services⦄ where
  open C use {Any, StateId}

  -- The states are well formed, the client is not frozen, and the result names the height, the
  -- time and the identifier of the pair, and hands on the client state as it was given.
  pub record Created (any_client any_consensus : Any) (r : CreateClientResult) : Type 0 where
    pub client : ClientState
    pub consensus : ConsensusState
    pub state_id : StateId
    pub client_read : client_state_from_any any_client ≡ ok client
    pub client_initialized : IsInitialized client
    pub unfrozen : client.frozen_height ≡ none
    pub consensus_read : consensus_state_from_any any_consensus ≡ ok consensus
    pub consensus_valid : validate_consensus_state consensus ≡ ok tt
    pub id_known : gen_state_id client consensus ≡ ok state_id
    pub result : r ≡ record {
      height = to_lcp_height (latest_height client);
      message = S.update_message_into (record {
        prev_height = none;
        prev_state_id = none;
        post_height = to_lcp_height (latest_height client);
        post_state_id = state_id;
        emitted_states =
            record { height = to_lcp_height (latest_height client); state = any_client } ∷ [];
        timestamp = consensus.timestamp;
        context = empty;
      });
      prove = false;
    }

  -- create_client returns a result exactly if both encoded states read, every parameter that the
  -- client state's check looks at is set, the client is not frozen, the consensus state passes its
  -- check and the pair can be identified; the result is then the client's latest height and a
  -- message with that height, the identifier, the consensus state's time and the client state as
  -- it was given.
  pub create_client-Created :
      (any_client any_consensus : Any) (r : CreateClientResult)
      → (create_client any_client any_consensus ≡ ok r) ↔ Created any_client any_consensus r
  unfolding create_client
  create_client-Created any_client any_consensus r = (
    λ h.
        let (client, client_read, h) =
          map_err-bind-eq-ok _ (client_state_from_any any_client) _ h in
        let (_, client_valid, h) = map_err-bind-eq-ok _ (validate_client_state client) _ h in
        let (_, unfrozen, h) = map_err-bind-eq-ok _ (reject_if (is_frozen client) _) _ h in
        let (consensus, consensus_read, h) =
          map_err-bind-eq-ok _ (consensus_state_from_any any_consensus) _ h in
        let (_, consensus_valid, h) =
          map_err-bind-eq-ok _ (validate_consensus_state consensus) _ h in
        let (state_id, id_known, h) = map_err-bind-eq-ok _ (gen_state_id client consensus) _ h in
        record {
          client = client;
          consensus = consensus;
          state_id = state_id;
          client_read = client_read;
          client_initialized = (validate_client_state-IsInitialized client).0 client_valid;
          unfrozen = ground arith;
          consensus_read = consensus_read;
          consensus_valid = consensus_valid;
          id_known = id_known;
          result = ground arith;
        },
    λ c. ground (arith, (validate_client_state-IsInitialized c.client).1 c.client_initialized),
  )
