-- ===== src/Tests/Runs.antt =====
-- Calls of the client of `States`, run to their results.
use ethereum_elc.Base.{◌≡◌, refl, true, some, [], ◌∷◌, ok, collect}
use ethereum_elc.External.Proto.{IbcAny}
use ethereum_elc.ClientState.{build_context}
use ethereum_elc.ConsensusState.{ConsensusState}
use ethereum_elc.ConsensusState.Codec.{
  consensus_state_into, consensus_state_from_any, consensus_state_try_from, consensus_state_to_any,
}
use ethereum_elc.ClientState.{ClientState, canonicalize}
use ethereum_elc.ClientState.Codec.{
  client_state_into, client_state_from_any, client_state_try_from, fork_parameters_into,
  client_state_to_any,
}
use ethereum_elc.ClientState.Update.{
  check_header_and_update_state, check_misbehaviour_and_update_state,
}
use ethereum_elc.ClientState.Update.Accepted.{
  MisbehaviourAccepted, check_misbehaviour-MisbehaviourAccepted,
}
use ethereum_elc.Header.{validate_header, header_timestamp}
use ethereum_elc.StateId.{gen_state_id}
use ethereum_elc.Services.{UpdateStateData, MisbehaviourReport, trusting_period}
use ethereum_elc.Client.{read_states}
use ethereum_elc.Client.Update.{update_state, update_data, submit_misbehaviour, make_prev_states}
use ethereum_elc.Tests.Instances.{local_crates}
use ethereum_elc.Tests.Handlers.{local_services}
use ethereum_elc.Tests.States.{
  now, client, consensus, trusted, next_header, next_client, next_consensus, forged, forged_message,
  frozen_client, written, written_consensus, host_of,
}

abbrev pub id_of : ClientState → ConsensusState → IbcAny × IbcAny
id_of s t = (written (canonicalize s), written_consensus t)

abbrev pub updated : UpdateStateData
updated = record {
  new_any_client_state = written next_client;
  new_any_consensus_state = written_consensus next_consensus;
  height = record { number = 0; block = 20 };
  message = record {
    prev_height = some trusted;
    prev_state_id = some (id_of client consensus);
    post_height = record { number = 0; block = 20 };
    post_state_id = id_of next_client next_consensus;
    emitted_states = [];
    timestamp = next_consensus.timestamp;
    context = trusting_period tt;
  };
  prove = true;
}

abbrev pub reported : MisbehaviourReport
reported = record {
  new_any_client_state = written frozen_client;
  message = record {
    prev_states = record { height = trusted; state_id = id_of client consensus } ∷ [];
    context = trusting_period tt;
    client_message = forged_message;
  };
}

pub read_runs : read_states (host_of client) "ethereum-0" trusted ≡ ok (client, consensus)
unfolding read_states client_state_from_any client_state_into fork_parameters_into
    client_state_try_from consensus_state_from_any consensus_state_into consensus_state_try_from
read_runs = refl

pub check_header_runs :
    check_header_and_update_state client now consensus next_header
    ≡ ok (next_client, next_consensus)
unfolding check_header_and_update_state validate_header header_timestamp build_context
check_header_runs = refl

pub update_data_runs :
    update_data next_header client consensus next_client next_consensus ≡ ok updated
unfolding update_data gen_state_id client_state_to_any consensus_state_to_any
update_data_runs = refl

pub update_state_runs : update_state (host_of client) "ethereum-0" next_header ≡ ok updated
unfolding update_state
update_state_runs = rw (read_runs, check_header_runs, update_data_runs) refl

pub forged_accepted : MisbehaviourAccepted client now "ethereum-0" consensus forged frozen_client
unfolding build_context
forged_accepted = record {
  trusted = 11;
  committee_valid = refl;
  same_client = refl;
  committee_trusted = refl;
  evidence_verified = refl;
  state_not_expired = refl;
  new_client_state = refl;
}

pub check_misbehaviour_runs :
    check_misbehaviour_and_update_state client now "ethereum-0" consensus forged ≡ ok frozen_client
check_misbehaviour_runs =
    (check_misbehaviour-MisbehaviourAccepted client now "ethereum-0" consensus forged
        frozen_client).1
      forged_accepted

pub frozen_written : client_state_to_any frozen_client ≡ ok (written frozen_client)
unfolding client_state_to_any
frozen_written = refl

pub prev_states_made :
    make_prev_states (host_of client) "ethereum-0" client (trusted ∷ [])
    ≡ ok (record { height = trusted; state_id = id_of client consensus } ∷ [])
unfolding make_prev_states collect consensus_state_from_any consensus_state_try_from
    consensus_state_into gen_state_id client_state_to_any consensus_state_to_any
prev_states_made = refl

pub submit_misbehaviour_runs :
    submit_misbehaviour (host_of client) "ethereum-0" forged_message forged ≡ ok reported
unfolding submit_misbehaviour
submit_misbehaviour_runs =
    rw (read_runs, check_misbehaviour_runs, frozen_written, prev_states_made) refl
