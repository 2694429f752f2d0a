-- ===== src/Client/Refused.antt =====
-- Why a call of light-client/src/client.rs finds no states to work on, and why `create_client`
-- refuses the states it is given.
use ethereum_elc.Base.{◌≡◌, ◌≢◌, none, ok, err, success, failure, arith}
use ethereum_elc.External.{Crates}
use ethereum_elc.Errors.{Error, client_frozen, cannot_initialize_frozen_client}
use ethereum_elc.ConsensusState.{ConsensusState, validate_consensus_state}
use ethereum_elc.ConsensusState.Codec.{consensus_state_from_any}
use ethereum_elc.ConsensusState.Checks as ConsensusChecks
use ethereum_elc.ClientState.{ClientState, validate_client_state}
use ethereum_elc.ClientState.Codec.{client_state_from_any}
use ethereum_elc.ClientState.Checks as ClientChecks
use ethereum_elc.StateId.{gen_state_id}
use ethereum_elc.Services.{Services, HostClientReader}
use ethereum_elc.Client.{read_states, create_client}

module _ ⦃C : Crates⦄ ⦃S : Services⦄ where
  open C use {Any, ClientId, Height, LcError}

  pub data StatesRefused (ctx : HostClientReader) (client_id : ClientId) (height : Height)
      : LcError → Type 0 where
    no_client :
        (e : LcError)
        → ctx.client_state client_id ≡ failure e
        → StatesRefused ctx client_id height e
    no_consensus :
        (e : LcError)
        → ctx.consensus_state client_id height ≡ failure e
        → StatesRefused ctx client_id height e
    client_unreadable :
        (any : Any) (e : Error)
        → ctx.client_state client_id ≡ success any
        → client_state_from_any any ≡ err e
        → StatesRefused ctx client_id height (S.specific_error e)
    frozen :
        (any : Any) (s : ClientState)
        → ctx.client_state client_id ≡ success any
        → client_state_from_any any ≡ ok s
        → s.frozen_height ≢ none
        → StatesRefused ctx client_id height (S.specific_error (client_frozen client_id))
    consensus_unreadable :
        (any : Any) (e : Error)
        → ctx.consensus_state client_id height ≡ success any
        → consensus_state_from_any any ≡ err e
        → StatesRefused ctx client_id height (S.specific_error e)

  pub read_states-StatesRefused :
      (ctx : HostClientReader) (client_id : ClientId) (height : Height) (e : LcError)
      → read_states ctx client_id height ≡ err e
      → StatesRefused ctx client_id height e
  unfolding read_states
  read_states-StatesRefused ctx client_id height e h =
      grind (arith, no_client, no_consensus, client_unreadable, frozen, consensus_unreadable)

  pub data CreateRefused (any_client any_consensus : Any) : LcError → Type 0 where
    client_unreadable :
        (e : Error)
        → client_state_from_any any_client ≡ err e
        → CreateRefused any_client any_consensus (S.specific_error e)
    client_uninitialized :
        (s : ClientState) (e : Error)
        → client_state_from_any any_client ≡ ok s
        → ClientChecks.Reports s e
        → CreateRefused any_client any_consensus (S.specific_error e)
    already_frozen :
        (s : ClientState)
        → client_state_from_any any_client ≡ ok s
        → s.frozen_height ≢ none
        → CreateRefused any_client any_consensus (S.specific_error cannot_initialize_frozen_client)
    consensus_unreadable :
        (e : Error)
        → consensus_state_from_any any_consensus ≡ err e
        → CreateRefused any_client any_consensus (S.specific_error e)
    consensus_uninitialized :
        (c : ConsensusState) (e : Error)
        → consensus_state_from_any any_consensus ≡ ok c
        → ConsensusChecks.Reports c e
        → CreateRefused any_client any_consensus (S.specific_error e)
    id_unknown :
        (s : ClientState) (c : ConsensusState) (e : Error)
        → client_state_from_any any_client ≡ ok s
        → consensus_state_from_any any_consensus ≡ ok c
        → gen_state_id s c ≡ err e
        → CreateRefused any_client any_consensus (S.specific_error e)

  invalid_client :
      (any_client any_consensus : Any) (s : ClientState) (e : Error)
      → client_state_from_any any_client ≡ ok s
      → validate_client_state s ≡ err e
      → CreateRefused any_client any_consensus (S.specific_error e)
  invalid_client any_client any_consensus s e read refused =
      client_uninitialized s e read (ClientChecks.validate_client_state-Reports s e refused)

  invalid_consensus :
      (any_client any_consensus : Any) (c : ConsensusState) (e : Error)
      → consensus_state_from_any any_consensus ≡ ok c
      → validate_consensus_state c ≡ err e
      → CreateRefused any_client any_consensus (S.specific_error e)
  invalid_consensus any_client any_consensus c e read refused =
      consensus_uninitialized c e read
        (ConsensusChecks.validate_consensus_state-Reports c e refused)

  -- Every error of create_client has one of the listed causes, with the error that belongs to it:
  -- a state does not read, a field of it that the error names is not set, the fork parameters lack
  -- the Bellatrix fork, the client is frozen, or the pair of states cannot be identified.
  pub create_client-CreateRefused :
      (any_client any_consensus : Any) (e : LcError)
      → create_client any_client any_consensus ≡ err e
      → CreateRefused any_client any_consensus e
  unfolding create_client
  create_client-CreateRefused any_client any_consensus e h = grind (
    arith, CreateRefused.client_unreadable, invalid_client, already_frozen,
    CreateRefused.consensus_unreadable, invalid_consensus, id_unknown,
  )
