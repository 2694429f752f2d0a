-- ===== src/Client.antt =====
-- light-client/src/client.rs: `EthereumLightClient`, the calls of the framework.
pub mod Read
pub mod Update
pub mod Membership
pub mod Panics
pub mod Create
pub mod Frozen
pub mod Refused
use ethereum_elc.Base.{
  ℕ, Bool, true, false, String, none, some, List, [], ◌∷◌, Outcome, Result, ok, err, panic,
  try_with, map_err, reject_if, ◌>>=◌, ◌>>◌,
}
use ethereum_elc.External.{Crates}
use ethereum_elc.Errors.{Error, cannot_initialize_frozen_client, client_frozen}
use ethereum_elc.Misc.{to_lcp_height}
use ethereum_elc.ConsensusState.{ConsensusState, validate_consensus_state}
use ethereum_elc.ConsensusState.Codec.{consensus_state_from_any}
use ethereum_elc.ClientState.{ClientState, validate_client_state, is_frozen, latest_height}
use ethereum_elc.ClientState.Codec.{client_state_from_any}
use ethereum_elc.StateId.{gen_state_id}
use ethereum_elc.Services.{
  Services, HostClientReader, EmittedState, empty, UpdateStateProxyMessage, CreateClientResult,
}

abbrev pub ethereum_client_type : String
ethereum_client_type = "ethereum"

module _ ⦃C : Crates⦄ ⦃S : Services⦄ where
  open C use {Any, ClientId, Height, LcError}

  -- `?` on one of the client's own results, in a function of the framework's error type.
  abbrev pub own {ℓ} : {A : Type ℓ} → Outcome Error A → Outcome LcError A
  own m = map_err S.specific_error m

  -- `?` on what the host answers, whose errors are already the framework's.
  abbrev pub from_host {ℓ} : {A : Type ℓ} → Result LcError A → Outcome LcError A
  from_host answer = try_with (λ e. e) answer

  -- The states of a client and of one of its heights, read from the host and decoded, unless the
  -- client is frozen: how `update_state`, `submit_misbehaviour`, `verify_membership` and
  -- `verify_non_membership` all begin.
  unfoldable pub read_states :
      HostClientReader → ClientId → Height → Outcome LcError (ClientState × ConsensusState)
  read_states ctx client_id height = do
    any_client_state ← from_host (ctx.client_state client_id)
    any_consensus_state ← from_host (ctx.consensus_state client_id height)
    client_state ← own (client_state_from_any any_client_state)
    own (reject_if (is_frozen client_state) (client_frozen client_id))
    consensus_state ← own (consensus_state_from_any any_consensus_state)
    ok (client_state, consensus_state)

  -- `latest_height`
  unfoldable pub client_latest_height : HostClientReader → ClientId → Outcome LcError Height
  client_latest_height ctx client_id = do
    any_client_state ← from_host (ctx.client_state client_id)
    client_state ← own (client_state_from_any any_client_state)
    ok (to_lcp_height (latest_height client_state))

  unfoldable pub create_client : Any → Any → Outcome LcError CreateClientResult
  create_client any_client_state any_consensus_state = do
    client_state ← own (client_state_from_any any_client_state)
    own (validate_client_state client_state)
    own (reject_if (is_frozen client_state) cannot_initialize_frozen_client)
    consensus_state ← own (consensus_state_from_any any_consensus_state)
    own (validate_consensus_state consensus_state)
    let height = to_lcp_height (latest_height client_state)
    state_id ← own (gen_state_id client_state consensus_state)
    ok (record {
      height = height;
      message = S.update_message_into (record {
        prev_height = none;
        prev_state_id = none;
        post_height = height;
        post_state_id = state_id;
        emitted_states = record { height = height; state = any_client_state } ∷ [];
        timestamp = consensus_state.timestamp;
        context = empty;
      });
      prove = false;
    })
