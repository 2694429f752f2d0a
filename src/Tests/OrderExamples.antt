-- ===== src/Tests/OrderExamples.antt =====
-- The theorems on the order of updates and evidence, at a second header for the client of `States`.
use ethereum_elc.Base.{◌≡◌, refl, some, ok, true, [], success, ◌&&◌, ◌==◌, if◌then◌else◌}
use ethereum_elc.External.Proto.{IbcAny}
use ethereum_elc.ConsensusState.Codec.{consensus_state_to_any}
use ethereum_elc.ClientState.Codec.{client_state_to_any}
use ethereum_elc.StateId.{gen_state_id}
use ethereum_elc.Services.{UpdateStateData, trusting_period}
use ethereum_elc.Client.Update.{update_state, update_data}
use ethereum_elc.Chain.{Chain, host_at}
use ethereum_elc.Chain.Diamond.{update_state_commutes}
use ethereum_elc.Tests.Lawful.{local-IsLawful, local-IsCodec}
use ethereum_elc.Tests.Chains.{start, advanced}
use ethereum_elc.ConsensusState.{ConsensusState}
use ethereum_elc.ClientState.{ClientState, build_context}
use ethereum_elc.ClientState.Update.{
  check_header_and_update_state, check_misbehaviour_and_update_state,
}
use ethereum_elc.ClientState.Update.Order.{check_misbehaviour_after_header}
use ethereum_elc.Header.{Header, validate_header, header_timestamp}
use ethereum_elc.Tests.Instances.{local_crates}
use ethereum_elc.Tests.Handlers.{local_services}
use ethereum_elc.Tests.States.{
  written, written_consensus, now, client, consensus, trusted, next_header, next_client,
  next_consensus, forged, frozen_client,
}
use ethereum_elc.Tests.Runs.{
  id_of, updated, read_runs, update_state_runs, check_header_runs, check_misbehaviour_runs,
}

-- A header of an older block than that of `next_header`.
abbrev other_header : Header
other_header = record next_header {
  execution_update = record { root = 4; block = 15; seconds = 1699999000 };
  account_update = 9;
}

abbrev other_client : ClientState
other_client = record client { latest_execution_block_number = 15 }

abbrev other_consensus : ConsensusState
other_consensus = record next_consensus { storage_root = 9 }

abbrev other_updated : UpdateStateData
other_updated = record {
  new_any_client_state = written other_client;
  new_any_consensus_state = written_consensus other_consensus;
  height = record { number = 0; block = 15 };
  message = record {
    prev_height = some trusted;
    prev_state_id = some (id_of client consensus);
    post_height = record { number = 0; block = 15 };
    post_state_id = id_of other_client other_consensus;
    emitted_states = [];
    timestamp = other_consensus.timestamp;
    context = trusting_period tt;
  };
  prove = true;
}

other_runs :
    check_header_and_update_state client now consensus other_header
    ≡ ok (other_client, other_consensus)
unfolding check_header_and_update_state validate_header header_timestamp build_context
other_runs = refl

other_returned :
    update_data other_header client consensus other_client other_consensus ≡ ok other_updated
unfolding update_data gen_state_id client_state_to_any consensus_state_to_any
other_returned = refl

other_update_runs : update_state (host_at start now) "ethereum-0" other_header ≡ ok other_updated
unfolding update_state
other_update_runs = rw (read_runs, other_runs, other_returned) refl

-- The chain after the update by `other_header`.
abbrev other_advanced : Chain
other_advanced = record {
  client = written other_client;
  consensus = λ height.
      if height.number == 0 && height.block == 15
      then success (written_consensus other_consensus)
      else start.consensus height;
}

update_state_commutes_example :
    (w : IbcAny) × (update_state (host_at advanced now) "ethereum-0" other_header
      ≡ ok (record other_updated { new_any_client_state = w }))
    × (update_state (host_at other_advanced now) "ethereum-0" next_header
        ≡ ok (record updated { new_any_client_state = w }))
update_state_commutes_example =
    update_state_commutes local-IsLawful local-IsCodec start advanced other_advanced now now
      "ethereum-0" next_header other_header updated other_updated update_state_runs
      other_update_runs refl refl refl refl

check_misbehaviour_after_header_example :
    check_misbehaviour_and_update_state next_client now "ethereum-0" consensus forged
    ≡ ok (record next_client { frozen_height = some trusted })
check_misbehaviour_after_header_example =
    check_misbehaviour_after_header client next_client frozen_client now now "ethereum-0" consensus
      consensus next_header forged next_consensus check_header_runs check_misbehaviour_runs
