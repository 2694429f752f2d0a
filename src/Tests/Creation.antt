-- ===== src/Tests/Creation.antt =====
-- A client made of the states of `States`.
use ethereum_elc.Base.{◌≡◌, refl, false, ok, arith}
use ethereum_elc.ConsensusState.{validate_consensus_state}
use ethereum_elc.ConsensusState.Checks as ConsensusChecks
use ethereum_elc.ClientState.Checks as ClientChecks
use ethereum_elc.StateId.{gen_state_id}
use ethereum_elc.ConsensusState.Codec.{consensus_state_to_any}
use ethereum_elc.ClientState.Codec.{client_state_to_any}
use ethereum_elc.Services.{CreateClientResult}
use ethereum_elc.Client.{create_client}
use ethereum_elc.Client.Create.{Created, create_client-Created}
use ethereum_elc.Tests.Instances.{local_crates}
use ethereum_elc.Tests.Handlers.{local_services}
use ethereum_elc.Tests.States.{
  client, consensus, trusted, written, written_consensus, client_reads, consensus_reads,
}
use ethereum_elc.Tests.Runs.{id_of}

pub client-IsInitialized : ClientChecks.IsInitialized client
client-IsInitialized = record {
  root_set = λ e. omega (arith, e);
  participants_set = λ e. omega (arith, e);
  genesis_time_set = λ e. omega (arith, e);
  fork_parameters_set = λ e. cc e;
  bellatrix_known = omega arith;
  seconds_per_slot_set = λ e. omega (arith, e);
  slots_per_epoch_set = λ e. omega (arith, e);
  epochs_set = λ e. omega (arith, e);
  address_set = λ e. omega (arith, e);
  trust_level_set = λ e. cc e;
  trusting_period_set = λ e. cc e;
  block_number_set = λ e. omega (arith, e);
}

pub consensus-IsInitialized : ConsensusChecks.IsInitialized consensus
consensus-IsInitialized = record {
  slot_set = λ e. omega (arith, e);
  timestamp_set = λ e. omega (arith, e);
  current_set = λ e. omega (arith, e);
  next_set = λ e. omega (arith, e);
}

abbrev pub created : CreateClientResult
created = record { height = trusted; message = tt; prove = false }

pub id_known : gen_state_id client consensus ≡ ok (id_of client consensus)
unfolding gen_state_id client_state_to_any consensus_state_to_any
id_known = refl

pub consensus_valid : validate_consensus_state consensus ≡ ok tt
consensus_valid =
    (ConsensusChecks.validate_consensus_state-IsInitialized consensus refl).1
      consensus-IsInitialized

pub created_parts : Created (written client) (written_consensus consensus) created
created_parts = record {
  client = client;
  consensus = consensus;
  state_id = id_of client consensus;
  client_read = client_reads;
  client_initialized = client-IsInitialized;
  unfrozen = refl;
  consensus_read = consensus_reads;
  consensus_valid = consensus_valid;
  id_known = id_known;
  result = refl;
}

pub create_runs : create_client (written client) (written_consensus consensus) ≡ ok created
create_runs =
    (create_client-Created (written client) (written_consensus consensus) created).1 created_parts
