-- ===== src/Client/Update.antt =====
-- light-client/src/client.rs: `update_client`, by a header or by misbehaviour.
pub mod Processed
pub mod PrevStates
pub mod Updated
pub mod Causes
pub mod Refused
use ethereum_elc.Base.{
  ℕ, Bool, true, false, none, some, List, [], ◌∷◌, Outcome, ok, err, panic, try_with, map_err,
  reject_if, collect, ◌>>=◌, ◌>>◌,
}
use ethereum_elc.Std.{duration_zero}
use ethereum_elc.External.{Crates}
use ethereum_elc.Errors.{Error, client_frozen, from_light_client_error}
use ethereum_elc.Misc.{to_lcp_height}
use ethereum_elc.ConsensusState.{ConsensusState}
use ethereum_elc.ConsensusState.Codec.{consensus_state_from_any, consensus_state_to_any}
use ethereum_elc.ClientState.{ClientState, is_frozen, ethereum_client_revision_number}
use ethereum_elc.ClientState.Codec.{client_state_from_any, client_state_to_any}
use ethereum_elc.ClientState.Update.{
  check_header_and_update_state, check_misbehaviour_and_update_state,
}
use ethereum_elc.Header.{Header, ClientMessage}
use ethereum_elc.Header.Codec.{client_message_from_ibc}
use ethereum_elc.Misbehaviour.{Misbehaviour}
use ethereum_elc.StateId.{gen_state_id}
use ethereum_elc.Services.{
  Services, HostClientReader, trusting_period, UpdateStateData, PrevState, MisbehaviourReport,
}
use ethereum_elc.Client.{own, from_host, read_states}

module _ ⦃C : Crates⦄ ⦃S : Services⦄ where
  open C use {
    Any, ClientId, Height, LcError, UpdateClientResult, any_into, height_new, block_number,
    trusted_height, trusting_period_context_new, unix_epoch,
  }

  -- What `update_state` returns for an accepted header.
  unfoldable pub update_data :
      Header
      → ClientState
      → ConsensusState
      → ClientState
      → ConsensusState
      → Outcome LcError UpdateStateData
  update_data header client_state consensus_state new_client_state new_consensus_state = do
    prev_state_id ← own (gen_state_id client_state consensus_state)
    post_state_id ← own (gen_state_id new_client_state new_consensus_state)
    new_any_client_state ← own (client_state_to_any new_client_state)
    new_any_consensus_state ← own (consensus_state_to_any new_consensus_state)
    let height = height_new ethereum_client_revision_number (block_number header.execution_update)
    ok (record {
      new_any_client_state = new_any_client_state;
      new_any_consensus_state = new_any_consensus_state;
      height = height;
      message = record {
        prev_height = some (to_lcp_height (trusted_height header.trusted_sync_committee));
        prev_state_id = some prev_state_id;
        post_height = height;
        post_state_id = post_state_id;
        emitted_states = [];
        timestamp = new_consensus_state.timestamp;
        context = trusting_period (
            trusting_period_context_new client_state.trusting_period client_state.max_clock_drift
              new_consensus_state.timestamp consensus_state.timestamp);
      };
      prove = true;
    })

  -- `EthereumLightClient::update_state`
  unfoldable pub update_state :
      HostClientReader → ClientId → Header → Outcome LcError UpdateStateData
  update_state ctx client_id header = do
    let height = to_lcp_height (trusted_height header.trusted_sync_committee)
    (client_state, consensus_state) ← read_states ctx client_id height
    (new_client_state, new_consensus_state) ←
        own (check_header_and_update_state client_state ctx.host_timestamp consensus_state header)
    update_data header client_state consensus_state new_client_state new_consensus_state

  -- One round of the loop of `make_prev_states`.
  unfoldable pub prev_state :
      HostClientReader → ClientId → ClientState → Height → Outcome Error PrevState
  prev_state ctx client_id client_state height = do
    any_consensus_state ← try_with from_light_client_error (ctx.consensus_state client_id height)
    consensus_state ← consensus_state_from_any any_consensus_state
    state_id ← gen_state_id client_state consensus_state
    ok (record { height = height; state_id = state_id })

  -- `EthereumLightClient::make_prev_states`
  unfoldable pub make_prev_states :
      HostClientReader → ClientId → ClientState → List Height → Outcome Error (List PrevState)
  unfolding prev_state
  make_prev_states ctx client_id client_state heights =
      collect (prev_state ctx client_id client_state) heights

  -- `EthereumLightClient::submit_misbehaviour`
  unfoldable pub submit_misbehaviour :
      HostClientReader → ClientId → Any → Misbehaviour → Outcome LcError MisbehaviourReport
  submit_misbehaviour ctx client_id any_message misbehaviour = do
    let height = to_lcp_height (trusted_height misbehaviour.trusted_sync_committee)
    (client_state, consensus_state) ← read_states ctx client_id height
    new_client_state ← own (
        check_misbehaviour_and_update_state client_state ctx.host_timestamp client_id
          consensus_state misbehaviour)
    new_any_client_state ← own (client_state_to_any new_client_state)
    prev_states ← own (make_prev_states ctx client_id client_state (height ∷ []))
    ok (record {
      new_any_client_state = new_any_client_state;
      message = record {
        prev_states = prev_states;
        context = trusting_period (
            trusting_period_context_new client_state.trusting_period duration_zero unix_epoch
              consensus_state.timestamp);
        client_message = any_message;
      };
    })

  -- The `match` of `update_client`.
  unfoldable pub dispatch :
      HostClientReader → ClientId → Any → ClientMessage → Outcome LcError UpdateClientResult
  dispatch ctx client_id any_message (ClientMessage.header h) = do
    result ← update_state ctx client_id h
    ok (S.update_result_from_state result)
  dispatch ctx client_id any_message (ClientMessage.misbehaviour m) = do
    result ← submit_misbehaviour ctx client_id any_message m
    ok (S.update_result_from_misbehaviour result)

  unfoldable pub update_client :
      HostClientReader → ClientId → Any → Outcome LcError UpdateClientResult
  update_client ctx client_id any_message = do
    message ← own (client_message_from_ibc (any_into any_message))
    dispatch ctx client_id any_message message
