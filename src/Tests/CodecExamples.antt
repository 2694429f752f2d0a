-- ===== src/Tests/CodecExamples.antt =====
-- The theorems on the conversions, at the states and messages of `States`.
use ethereum_elc.Base.{
  ◌<◌, ◌≤◌, ◌≡◌, ◌≢◌, ◌↔◌, refl, some, ok, err, panic, arith, String, str_eq, eq_iff, false,
}
use ethereum_elc.Std.{pos, i64_bound}
use ethereum_elc.Errors.{timestamp_overflow}
use ethereum_elc.Misc.{new_timestamp}
use ethereum_elc.Misc.Bounds.{new_timestamp_range}
use ethereum_elc.Raw.{
  RawClientState, RawConsensusState, RawFinalizedHeaderMisbehaviour,
  RawNextSyncCommitteeMisbehaviour,
}
use ethereum_elc.ConsensusState.Codec.{
  timestamp_to_proto_timestamp, consensus_state_try_from, consensus_state_into,
  consensus_state_from_any, consensus_state_to_any,
}
use ethereum_elc.ConsensusState.Codec.RoundTrip as ConsensusRoundTrip
use ethereum_elc.ClientState.Codec.{
  client_state_try_from, client_state_into, client_state_from_any, client_state_to_any,
}
use ethereum_elc.ClientState.Codec.RoundTrip as ClientRoundTrip
use ethereum_elc.Header.{header}
use ethereum_elc.Header.Codec.{header_from_ibc, client_message_from_ibc}
use ethereum_elc.Header.Codec.Kinds.{
  client_message_from_ibc-header, client_message_from_ibc_misbehaviour,
  client_message_from_ibc_no_panic,
}
use ethereum_elc.Misbehaviour.Codec.{misbehaviour_from_ibc}
use ethereum_elc.Tests.Instances.{local_crates}
use ethereum_elc.Tests.Handlers.{local_services}
use ethereum_elc.Tests.Lawful.{local-IsLawful, local-IsCodec}
use ethereum_elc.Tests.States.{
  now, client, consensus, next_header, forged, forged_message, header_message, written,
  written_consensus, trusted_committee, update, other_update, client_reads, consensus_reads,
  forged_reads,
}

timestamp_to_proto_timestamp-exact_example :
    ((timestamp_to_proto_timestamp now).seconds ≡ pos 1700000000)
    × ((timestamp_to_proto_timestamp now).nanos ≡ pos 0)
timestamp_to_proto_timestamp-exact_example =
    ConsensusRoundTrip.timestamp_to_proto_timestamp-exact now (omega arith)

new_timestamp_range_example :
    ((new_timestamp 1700000000 ≡ err (timestamp_overflow 1700000000)) ↔ (i64_bound ≤ 1700000000))
    × (1700000000 < i64_bound → new_timestamp 1700000000 ≡ ok now)
new_timestamp_range_example = new_timestamp_range 1700000000

raw_client : RawClientState
raw_client = client_state_into client

client_state_try_from_no_panic_example : client_state_try_from raw_client ≢ panic
client_state_try_from_no_panic_example =
    ClientRoundTrip.client_state_try_from_no_panic local-IsLawful raw_client

raw_consensus : RawConsensusState
raw_consensus = consensus_state_into consensus

consensus_state_try_from_no_panic_example : consensus_state_try_from raw_consensus ≢ panic
consensus_state_try_from_no_panic_example =
    ConsensusRoundTrip.consensus_state_try_from_no_panic local-IsLawful raw_consensus

pub client-IsRepresentable : ClientRoundTrip.IsRepresentable client
unfolding ethereum_elc.ClientState.Codec.fork_parameters_into
client-IsRepresentable = record {
  fork_parameters =
      (ethereum_elc.ClientState.Codec.fork_parameters_into client.fork_parameters, refl);
  trust_level = refl;
  trusting_period = refl;
  max_clock_drift = refl;
  consensus_verifier = refl;
  execution_verifier = refl;
}

pub consensus-IsRepresentable : ConsensusRoundTrip.IsRepresentable consensus
consensus-IsRepresentable = record { current_key = refl; next_key = refl }

client_state_from_any-IsRepresentable_example : ClientRoundTrip.IsRepresentable client
client_state_from_any-IsRepresentable_example =
    ClientRoundTrip.client_state_from_any-IsRepresentable local-IsLawful (written client)
      client_reads

consensus_state_from_any-IsRepresentable_example : ConsensusRoundTrip.IsRepresentable consensus
consensus_state_from_any-IsRepresentable_example =
    ConsensusRoundTrip.consensus_state_from_any-IsRepresentable local-IsLawful
      (written_consensus consensus) consensus_reads

client_state_try_from-into_example : client_state_try_from (client_state_into client) ≡ ok client
client_state_try_from-into_example =
    ClientRoundTrip.client_state_try_from-into local-IsLawful client client-IsRepresentable

consensus_state_try_from-into_example :
    consensus_state_try_from (consensus_state_into consensus) ≡ ok consensus
consensus_state_try_from-into_example =
    ConsensusRoundTrip.consensus_state_try_from-into local-IsLawful consensus
      consensus-IsRepresentable

client_writes : client_state_to_any client ≡ ok (written client)
unfolding client_state_to_any
client_writes = refl

consensus_writes : consensus_state_to_any consensus ≡ ok (written_consensus consensus)
unfolding consensus_state_to_any
consensus_writes = refl

client_state_from_any-to_any_example : client_state_from_any (written client) ≡ ok client
client_state_from_any-to_any_example =
    ClientRoundTrip.client_state_from_any-to_any local-IsLawful local-IsCodec client
      client-IsRepresentable client_writes

consensus_state_from_any-to_any_example :
    consensus_state_from_any (written_consensus consensus) ≡ ok consensus
consensus_state_from_any-to_any_example =
    ConsensusRoundTrip.consensus_state_from_any-to_any local-IsLawful local-IsCodec consensus
      consensus-IsRepresentable consensus_writes

consensus_state_reread_example : consensus ≡ consensus
consensus_state_reread_example =
    ConsensusRoundTrip.consensus_state_reread local-IsLawful local-IsCodec consensus
      consensus_writes consensus_reads

client_message_from_ibc-header_example :
    (client_message_from_ibc header_message ≡ ok (header next_header))
    ↔ (header_from_ibc header_message ≡ ok next_header)
client_message_from_ibc-header_example = client_message_from_ibc-header header_message next_header

client_message_from_ibc_misbehaviour_example : misbehaviour_from_ibc forged_message ≡ ok forged
client_message_from_ibc_misbehaviour_example =
    (client_message_from_ibc_misbehaviour forged_message forged).0 forged_reads

client_message_from_ibc_no_panic_example : client_message_from_ibc forged_message ≢ panic
client_message_from_ibc_no_panic_example = client_message_from_ibc_no_panic forged_message

other_url :
    (url : String)
    → str_eq "/ibc.lightclients.ethereum.v1.ClientState" url ≡ false
    → "/ibc.lightclients.ethereum.v1.ClientState" ≢ url
other_url url n e = cc (n, (eq_iff _ _).1 e)

abbrev raw_forged : RawFinalizedHeaderMisbehaviour
raw_forged = record {
  client_id = "ethereum-0";
  trusted_sync_committee = some trusted_committee;
  consensus_update_1 = some update;
  consensus_update_2 = some other_update;
}

abbrev raw_forged_committee : RawNextSyncCommitteeMisbehaviour
raw_forged_committee = record {
  client_id = "ethereum-0";
  trusted_sync_committee = some trusted_committee;
  consensus_update_1 = some update;
  consensus_update_2 = some other_update;
}
