-- ===== src/Tests/States.antt =====
-- A client, a header for it and evidence against it, in the crates of `Instances`.
use ethereum_elc.Base.{
  ◌≡◌, refl, some, none, false, [], ◌∷◌, success, failure, ok, ◌==◌, if◌then◌else◌,
}
use ethereum_elc.External.Proto.{IbcAny}
use ethereum_elc.Raw.{RawHeader}
use ethereum_elc.ConsensusState.{ConsensusState}
use ethereum_elc.ConsensusState.Codec.{
  ethereum_consensus_state_type_url, consensus_state_into, consensus_state_from_any,
  consensus_state_try_from,
}
use ethereum_elc.ClientState.{ClientState, ethereum_client_state_type_url}
use ethereum_elc.ClientState.Codec.{
  client_state_into, client_state_from_any, client_state_try_from, fork_parameters_into,
}
use ethereum_elc.Header.{Header, header, misbehaviour, ethereum_header_type_url}
use ethereum_elc.Header.Codec.{client_message_from_ibc, header_from_ibc, header_try_from}
use ethereum_elc.Misbehaviour.Codec.{misbehaviour_from_ibc, finalized_header_try_from}
use ethereum_elc.Misbehaviour.{
  Misbehaviour, finalized_header, next_sync_committee,
  ethereum_finalized_header_misbehaviour_type_url,
}
use ethereum_elc.Services.{HostClientReader}
use ethereum_elc.Tests.Instants.{Instant}
use ethereum_elc.Tests.Local.{LocalHeight, LocalCommittee, LocalUpdate}
use ethereum_elc.Tests.Instances.{local_crates}
use ethereum_elc.Tests.Handlers.{local_services}
use ethereum_elc.Tests.Wire as Wire

abbrev pub now : Instant
now = record { nanos = 1700000000000000000; fits = refl }

abbrev pub state_time : Instant
state_time = record { nanos = 1699990000000000000; fits = refl }

abbrev pub header_time : Instant
header_time = record { nanos = 1699999000000000000; fits = refl }

abbrev pub client : ClientState
client = record {
  genesis_validators_root = 5;
  min_sync_committee_participants = 1;
  genesis_time = 1600000000;
  fork_parameters = 0 ∷ 0 ∷ 0 ∷ 0 ∷ [];
  seconds_per_slot = 6;
  slots_per_epoch = 8;
  epochs_per_sync_committee_period = 8;
  ibc_address = 7;
  ibc_commitments_slot = 2;
  trust_level = record { numerator = 2; denominator = 3 };
  trusting_period = record { secs = 97200; subsec_nanos = 0 };
  max_clock_drift = record { secs = 60; subsec_nanos = 0 };
  latest_execution_block_number = 10;
  frozen_height = none;
  consensus_verifier = tt;
  execution_verifier = tt;
}

abbrev pub trusted : LocalHeight
trusted = record { number = 0; block = 10 }

abbrev pub frozen_client : ClientState
frozen_client = record client { frozen_height = some trusted }

abbrev pub consensus : ConsensusState
consensus = record {
  slot = 64;
  storage_root = 1;
  timestamp = state_time;
  current_sync_committee = 11;
  next_sync_committee = 12;
}

abbrev pub trusted_committee : LocalCommittee
trusted_committee = record { height = trusted; key = 11; next = false }

abbrev pub update : LocalUpdate
update = record { slot = 130; next_key = 13 }

abbrev pub other_update : LocalUpdate
other_update = record { slot = 130; next_key = 14 }

abbrev pub next_header : Header
next_header = record {
  trusted_sync_committee = trusted_committee;
  consensus_update = update;
  execution_update = record { root = 3; block = 20; seconds = 1699999000 };
  account_update = 4;
}

abbrev pub next_client : ClientState
next_client = record client { latest_execution_block_number = 20 }

abbrev pub next_consensus : ConsensusState
next_consensus = record {
  slot = 130;
  storage_root = 4;
  timestamp = header_time;
  current_sync_committee = 12;
  next_sync_committee = 13;
}

abbrev pub forged : Misbehaviour
forged = record {
  client_id = "ethereum-0";
  trusted_sync_committee = trusted_committee;
  evidence = finalized_header update other_update;
}

abbrev pub forged_committee : Misbehaviour
forged_committee = record forged { evidence = next_sync_committee update other_update }

abbrev pub written : ClientState → IbcAny
written s = record {
  type_url = ethereum_client_state_type_url;
  value = Wire.client_state.put (client_state_into s) [];
}

abbrev pub written_consensus : ConsensusState → IbcAny
written_consensus s = record {
  type_url = ethereum_consensus_state_type_url;
  value = Wire.consensus_state.put (consensus_state_into s) [];
}

abbrev pub header_message : IbcAny
header_message = record {
  type_url = ethereum_header_type_url;
  value = Wire.header.put raw_header [];
}
  where
    raw_header : RawHeader
    raw_header = record {
      trusted_sync_committee = some trusted_committee;
      consensus_update = some update;
      execution_update = some next_header.execution_update;
      account_update = some 4;
    }

abbrev pub forged_message : IbcAny
forged_message = record {
  type_url = ethereum_finalized_header_misbehaviour_type_url;
  value = Wire.evidence.put (some trusted_committee, (some update, some other_update)) [];
}

-- A host that holds `s`, and the consensus state at its height.
abbrev pub host_of : ClientState → HostClientReader
host_of s = record {
  client_state = λ _. success (written s);
  consensus_state = λ _ height.
      if height.block == 10
      then success (written_consensus consensus)
      else failure "unknown height";
  host_timestamp = now;
}

pub client_reads : client_state_from_any (written client) ≡ ok client
unfolding client_state_from_any client_state_into fork_parameters_into client_state_try_from
client_reads = refl

pub frozen_client_reads : client_state_from_any (written frozen_client) ≡ ok frozen_client
unfolding client_state_from_any client_state_into fork_parameters_into client_state_try_from
frozen_client_reads = refl

pub consensus_reads : consensus_state_from_any (written_consensus consensus) ≡ ok consensus
unfolding consensus_state_from_any consensus_state_into consensus_state_try_from
consensus_reads = refl

pub header_reads : client_message_from_ibc header_message ≡ ok (header next_header)
unfolding client_message_from_ibc header_from_ibc header_try_from
header_reads = refl

pub forged_reads : client_message_from_ibc forged_message ≡ ok (misbehaviour forged)
unfolding client_message_from_ibc misbehaviour_from_ibc finalized_header_try_from
forged_reads = refl
