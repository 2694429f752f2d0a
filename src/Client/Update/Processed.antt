-- ===== src/Client/Update/Processed.antt =====
-- light-client/src/client.rs: when a header or evidence of misbehaviour is processed, and what the
-- call returns.
use ethereum_elc.Base.{
  ◌≡◌, ◌↔◌, List, some, true, [], ◌∷◌, ok, arith, map_err-bind-eq-ok, >>=-eq-ok, collect,
}
use ethereum_elc.Std.{duration_zero}
use ethereum_elc.External.{Crates}
use ethereum_elc.Misc.{to_lcp_height}
use ethereum_elc.ConsensusState.{ConsensusState}
use ethereum_elc.ConsensusState.Codec.{consensus_state_to_any}
use ethereum_elc.ClientState.{ClientState, ethereum_client_revision_number}
use ethereum_elc.ClientState.Codec.{client_state_to_any}
use ethereum_elc.ClientState.Update.{
  check_header_and_update_state, check_misbehaviour_and_update_state,
}
use ethereum_elc.ClientState.Update.Accepted.{
  HeaderAccepted, MisbehaviourAccepted, check_header-HeaderAccepted,
  check_misbehaviour-MisbehaviourAccepted,
}
use ethereum_elc.Header.{Header}
use ethereum_elc.Misbehaviour.{Misbehaviour}
use ethereum_elc.StateId.{gen_state_id}
use ethereum_elc.Services.{
  Services, HostClientReader, trusting_period, UpdateStateData, MisbehaviourReport, PrevState,
}
use ethereum_elc.Client.{read_states}
use ethereum_elc.Client.Read.{StatesRead, read_states-StatesRead}
use ethereum_elc.Client.Update.{update_data, update_state, submit_misbehaviour, make_prev_states}

module _ ⦃C : Crates⦄ ⦃S : Services⦄ where
  open C use {
    Any, ClientId, Height, StateId, height_new, block_number, trusted_height,
    trusting_period_context_new, unix_epoch,
  }

  abbrev pub trusted_height_of : Header → Height
  trusted_height_of h = to_lcp_height (trusted_height h.trusted_sync_committee)

  -- What is returned for an accepted header: the new states as written, and a message that links
  -- the identifier of the old pair of states to that of the new one.
  pub record UpdateReturned (h : Header) (client : ClientState) (consensus : ConsensusState)
      (new_client : ClientState) (new_consensus : ConsensusState) (r : UpdateStateData)
      : Type 0 where
    pub prev_id : StateId
    pub post_id : StateId
    pub prev_known : gen_state_id client consensus ≡ ok prev_id
    pub post_known : gen_state_id new_client new_consensus ≡ ok post_id
    pub client_written : client_state_to_any new_client ≡ ok r.new_any_client_state
    pub consensus_written : consensus_state_to_any new_consensus ≡ ok r.new_any_consensus_state
    pub height_known :
        r.height ≡ height_new ethereum_client_revision_number (block_number h.execution_update)
    pub message_known : r.message ≡ record {
      prev_height = some (trusted_height_of h);
      prev_state_id = some prev_id;
      post_height = r.height;
      post_state_id = post_id;
      emitted_states = [];
      timestamp = new_consensus.timestamp;
      context = trusting_period (
          trusting_period_context_new client.trusting_period client.max_clock_drift
            new_consensus.timestamp consensus.timestamp);
    }
    pub proved : r.prove ≡ true

  pub record HeaderProcessed (ctx : HostClientReader) (client_id : ClientId) (h : Header)
      (r : UpdateStateData) : Type 0 where
    pub client : ClientState
    pub consensus : ConsensusState
    pub new_client : ClientState
    pub new_consensus : ConsensusState
    pub states : StatesRead ctx client_id (trusted_height_of h) client consensus
    pub accepted : HeaderAccepted client ctx.host_timestamp consensus h new_client new_consensus
    pub returned : UpdateReturned h client consensus new_client new_consensus r

  pub record MisbehaviourProcessed (ctx : HostClientReader) (client_id : ClientId)
      (any_message : Any) (m : Misbehaviour) (r : MisbehaviourReport) : Type 0 where
    pub client : ClientState
    pub consensus : ConsensusState
    pub new_client : ClientState
    pub prev_id : StateId
    pub states :
        StatesRead ctx client_id
          (to_lcp_height (trusted_height m.trusted_sync_committee))
          client
          consensus
    pub accepted : MisbehaviourAccepted client ctx.host_timestamp client_id consensus m new_client
    pub client_written : client_state_to_any new_client ≡ ok r.new_any_client_state
    pub prev_known : gen_state_id client consensus ≡ ok prev_id
    pub message_known : r.message ≡ record {
      prev_states =
          record {
            height = to_lcp_height (trusted_height m.trusted_sync_committee);
            state_id = prev_id;
          }
          ∷ [];
      context = trusting_period (
          trusting_period_context_new client.trusting_period duration_zero unix_epoch
            consensus.timestamp);
      client_message = any_message;
    }

  update_data-UpdateReturned :
      (h : Header) (client : ClientState) (consensus : ConsensusState) (new_client : ClientState)
      (new_consensus : ConsensusState) (r : UpdateStateData)
      → (update_data h client consensus new_client new_consensus ≡ ok r)
        ↔ UpdateReturned h client consensus new_client new_consensus r
  unfolding update_data
  update_data-UpdateReturned header client consensus new_client new_consensus r = (
    λ h.
        let (prev_id, prev_known, h) = map_err-bind-eq-ok _ (gen_state_id client consensus) _ h in
        let (post_id, post_known, h) =
          map_err-bind-eq-ok _ (gen_state_id new_client new_consensus) _ h in
        record {
          prev_id = prev_id;
          post_id = post_id;
          prev_known = prev_known;
          post_known = post_known;
          client_written = ground arith;
          consensus_written = ground arith;
          height_known = ground arith;
          message_known = ground arith;
          proved = ground arith;
        },
    λ p. ground arith,
  )

  -- update_state returns a result exactly if the host holds a client state and a consensus state
  -- at the header's trusted height that read well and the client is not frozen, every check of the
  -- header accepts it, and the new states can be written and both pairs of states identified; the
  -- result is then the new states as written, the header's block number as height, and a message
  -- that links the identifier of the old pair to that of the new pair, with the times and the
  -- trusting period.
  pub update_state-HeaderProcessed :
      (ctx : HostClientReader) (client_id : ClientId) (h : Header) (r : UpdateStateData)
      → (update_state ctx client_id h ≡ ok r) ↔ HeaderProcessed ctx client_id h r
  unfolding update_state
  update_state-HeaderProcessed ctx client_id header r = (
    λ h.
        let ((client, consensus), read, h) =
          >>=-eq-ok (read_states ctx client_id (trusted_height_of header)) _ h in
        let ((new_client, new_consensus), accepted, h) =
          map_err-bind-eq-ok _
            (check_header_and_update_state client ctx.host_timestamp consensus header) _ h in
        record {
          client = client;
          consensus = consensus;
          new_client = new_client;
          new_consensus = new_consensus;
          states = (read_states-StatesRead _ _ _ _ _).0 read;
          accepted = (check_header-HeaderAccepted _ _ _ _ _ _).0 accepted;
          returned = (update_data-UpdateReturned _ _ _ _ _ _).0 h;
        },
    λ p.
        rw
          (
            (read_states-StatesRead _ _ _ _ _).1 p.states,
            (check_header-HeaderAccepted _ _ _ _ _ _).1 p.accepted,
          )
          ((update_data-UpdateReturned _ _ _ _ _ _).1 p.returned),
  )

  -- At a height whose states were read, the state that is reported is the one that was read.
  make_prev_states_one :
      (ctx : HostClientReader) (client_id : ClientId) (height : Height) {client : ClientState}
      {consensus : ConsensusState} {prevs : List PrevState}
      → StatesRead ctx client_id height client consensus
      → make_prev_states ctx client_id client (height ∷ []) ≡ ok prevs
      → (prev_id : StateId) × (gen_state_id client consensus ≡ ok prev_id)
        × (prevs ≡ record { height = height; state_id = prev_id } ∷ [])
  unfolding make_prev_states collect
  make_prev_states_one ctx client_id height s h = ground arith

  one_make_prev_states :
      (ctx : HostClientReader) (client_id : ClientId) (height : Height) {client : ClientState}
      {consensus : ConsensusState} (prev_id : StateId)
      → StatesRead ctx client_id height client consensus
      → gen_state_id client consensus ≡ ok prev_id
      → make_prev_states ctx client_id client (height ∷ [])
        ≡ ok (record { height = height; state_id = prev_id } ∷ [])
  unfolding make_prev_states collect
  one_make_prev_states ctx client_id height prev_id s h = ground arith

  -- submit_misbehaviour returns a result exactly if the host holds states at the misbehaviour's
  -- trusted height that read well and the client is not frozen, every check accepts the evidence,
  -- and the frozen client can be written and the pair of states identified; the result is then the
  -- frozen client as written and a message with that one height, the identifier of the pair that
  -- was read, the trusting period and the message as it came.
  pub submit_misbehaviour-MisbehaviourProcessed :
      (ctx : HostClientReader) (client_id : ClientId) (any_message : Any) (m : Misbehaviour)
      (r : MisbehaviourReport)
      → (submit_misbehaviour ctx client_id any_message m ≡ ok r)
        ↔ MisbehaviourProcessed ctx client_id any_message m r
  unfolding submit_misbehaviour
  submit_misbehaviour-MisbehaviourProcessed ctx client_id any_message m r = (
    λ h.
        let height = to_lcp_height (trusted_height m.trusted_sync_committee) in
        let ((client, consensus), read, h) = >>=-eq-ok (read_states ctx client_id height) _ h in
        let (new_client, accepted, h) =
          map_err-bind-eq-ok _
            (check_misbehaviour_and_update_state client ctx.host_timestamp client_id consensus m) _
            h in
        let (new_any_client, client_written, h) =
          map_err-bind-eq-ok _ (client_state_to_any new_client) _ h in
        let (prevs, made, h) =
          map_err-bind-eq-ok _ (make_prev_states ctx client_id client (height ∷ [])) _ h in
        let states = (read_states-StatesRead ctx client_id height client consensus).0 read in
        let (prev_id, prev_known, same) = make_prev_states_one ctx client_id height states made in
        record {
          client = client;
          consensus = consensus;
          new_client = new_client;
          prev_id = prev_id;
          states = states;
          accepted = (check_misbehaviour-MisbehaviourAccepted _ _ _ _ _ _).0 accepted;
          client_written = ground arith;
          prev_known = prev_known;
          message_known = ground arith;
        },
    λ p. ground (
      arith,
      (read_states-StatesRead _ _ _ _ _).1 p.states,
      (check_misbehaviour-MisbehaviourAccepted _ _ _ _ _ _).1 p.accepted,
      one_make_prev_states ctx client_id _ p.prev_id p.states p.prev_known,
    ),
  )
