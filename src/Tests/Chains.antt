-- ===== src/Tests/Chains.antt =====
-- The client of `States` over two calls: an update, and then another call that trusts it.
use ethereum_elc.Base.{
  ◌≡◌, ◌≢◌, refl, true, false, ◌&&◌, ◌==◌, if◌then◌else◌, some, [], ◌∷◌, ok, success, failure,
  arith, collect,
}
use ethereum_elc.ConsensusState.{ConsensusState}
use ethereum_elc.ConsensusState.Codec.{
  consensus_state_into, consensus_state_from_any, consensus_state_try_from, consensus_state_to_any,
}
use ethereum_elc.ClientState.{ClientState, build_context}
use ethereum_elc.ClientState.Codec.{
  client_state_into, client_state_from_any, client_state_try_from, fork_parameters_into,
  client_state_to_any,
}
use ethereum_elc.ClientState.Update.{check_header_and_update_state}
use ethereum_elc.ClientState.Update.Accepted.{
  MisbehaviourAccepted, check_misbehaviour-MisbehaviourAccepted,
}
use ethereum_elc.Header.{Header, validate_header, header_timestamp}
use ethereum_elc.Misbehaviour.{Misbehaviour}
use ethereum_elc.StateId.{gen_state_id}
use ethereum_elc.Services.{UpdateStateData, MisbehaviourReport, trusting_period}
use ethereum_elc.Client.{read_states}
use ethereum_elc.Client.Update.{update_state, update_data, submit_misbehaviour, make_prev_states}
use ethereum_elc.Chain.{Chain, host_at, Step, by_header, by_misbehaviour, Reach, here, next}
use ethereum_elc.Chain.Links.{Recorded}
use ethereum_elc.Tests.Local.{LocalHeight, LocalCommittee}
use ethereum_elc.Tests.Instances.{local_crates}
use ethereum_elc.Tests.Handlers.{local_services}
use ethereum_elc.Tests.States.{
  now, client, consensus, next_header, next_client, next_consensus, forged, header_time,
  header_message, header_reads, forged_message, forged_reads, frozen_client, written,
  written_consensus,
}
use ethereum_elc.Tests.Runs.{id_of, updated, update_state_runs, reported, submit_misbehaviour_runs}

abbrev pub start : Chain
start = record {
  client = written client;
  consensus = λ height.
      if height.block == 10
      then success (written_consensus consensus)
      else failure "unknown height";
}

abbrev pub frozen_chain : Chain
frozen_chain = record start { client = written frozen_client }

abbrev pub height_20 : LocalHeight
height_20 = record { number = 0; block = 20 }

abbrev pub advanced : Chain
advanced = record {
  client = written next_client;
  consensus = λ height.
      if height.number == 0 && height.block == 20
      then success (written_consensus next_consensus)
      else start.consensus height;
}

pub advanced_kept : (k : LocalHeight) → k ≢ height_20 → advanced.consensus k ≡ start.consensus k
advanced_kept k n = ground arith

abbrev pub advance_step : Step "ethereum-0" start advanced
advance_step =
    by_header now header_message next_header updated header_reads update_state_runs refl refl
      advanced_kept

abbrev pub freeze_reach : Reach "ethereum-0" start frozen_chain
freeze_reach = next here (
    by_misbehaviour now forged_message forged reported forged_reads submit_misbehaviour_runs refl
      (λ k. refl))

abbrev pub advance_reach : Reach "ethereum-0" start advanced
advance_reach = next here advance_step

pub advance-Recorded : Recorded "ethereum-0" updated advanced advanced
advance-Recorded = record { client_stored = refl; calls = here; consensus_kept = refl }

-- The second call: a header or evidence that trusts height 20.
abbrev pub second_committee : LocalCommittee
second_committee = record { height = height_20; key = 12; next = false }

abbrev pub second_header : Header
second_header = record {
  trusted_sync_committee = second_committee;
  consensus_update = record { slot = 200; next_key = 15 };
  execution_update = record { root = 5; block = 30; seconds = 1699999000 };
  account_update = 6;
}

abbrev pub second_client : ClientState
second_client = record client { latest_execution_block_number = 30 }

abbrev pub second_consensus : ConsensusState
second_consensus = record {
  slot = 200;
  storage_root = 6;
  timestamp = header_time;
  current_sync_committee = 13;
  next_sync_committee = 15;
}

abbrev pub second_updated : UpdateStateData
second_updated = record {
  new_any_client_state = written second_client;
  new_any_consensus_state = written_consensus second_consensus;
  height = record { number = 0; block = 30 };
  message = record {
    prev_height = some height_20;
    prev_state_id = some (id_of next_client next_consensus);
    post_height = record { number = 0; block = 30 };
    post_state_id = id_of second_client second_consensus;
    emitted_states = [];
    timestamp = header_time;
    context = trusting_period tt;
  };
  prove = true;
}

pub read_second :
    read_states (host_at advanced now) "ethereum-0" height_20 ≡ ok (next_client, next_consensus)
unfolding read_states client_state_from_any client_state_into fork_parameters_into
    client_state_try_from consensus_state_from_any consensus_state_into consensus_state_try_from
read_second = refl

check_second :
    check_header_and_update_state next_client now next_consensus second_header
    ≡ ok (second_client, second_consensus)
unfolding check_header_and_update_state validate_header header_timestamp build_context
check_second = refl

write_second :
    update_data second_header next_client next_consensus second_client second_consensus
    ≡ ok second_updated
unfolding update_data gen_state_id client_state_to_any consensus_state_to_any
write_second = refl

pub second_update_runs :
    update_state (host_at advanced now) "ethereum-0" second_header ≡ ok second_updated
unfolding update_state
second_update_runs = rw (read_second, check_second, write_second) refl

abbrev pub second_forged : Misbehaviour
second_forged = record forged { trusted_sync_committee = second_committee }

abbrev pub second_frozen : ClientState
second_frozen = record next_client { frozen_height = some height_20 }

abbrev pub second_reported : MisbehaviourReport
second_reported = record {
  new_any_client_state = written second_frozen;
  message = record {
    prev_states = record { height = height_20; state_id = id_of next_client next_consensus } ∷ [];
    context = trusting_period tt;
    client_message = forged_message;
  };
}

second_forged_accepted :
    MisbehaviourAccepted next_client now "ethereum-0" next_consensus second_forged second_frozen
unfolding build_context
second_forged_accepted = record {
  trusted = 12;
  committee_valid = refl;
  same_client = refl;
  committee_trusted = refl;
  evidence_verified = refl;
  state_not_expired = refl;
  new_client_state = refl;
}

second_frozen-written : client_state_to_any second_frozen ≡ ok (written second_frozen)
unfolding client_state_to_any
second_frozen-written = refl

second_prev_states :
    make_prev_states (host_at advanced now) "ethereum-0" next_client (height_20 ∷ [])
    ≡ ok (record { height = height_20; state_id = id_of next_client next_consensus } ∷ [])
unfolding make_prev_states collect consensus_state_from_any consensus_state_try_from
    consensus_state_into gen_state_id client_state_to_any consensus_state_to_any
second_prev_states = refl

pub second_misbehaviour_runs :
    submit_misbehaviour (host_at advanced now) "ethereum-0" forged_message second_forged
    ≡ ok second_reported
unfolding submit_misbehaviour
second_misbehaviour_runs =
    rw
      (
        read_second,
        (check_misbehaviour-MisbehaviourAccepted next_client now "ethereum-0" next_consensus
              second_forged second_frozen).1
            second_forged_accepted,
        second_frozen-written,
        second_prev_states,
      )
      refl
