-- ===== src/Tests/SyncExamples.antt =====
-- A relay of two headers.
use ethereum_elc.Base.{◌≡◌, refl, some, [], ok, success}
use ethereum_elc.External.Proto.{IbcAny}
use ethereum_elc.Raw.{RawHeader}
use ethereum_elc.ConsensusState.Codec.{consensus_state_from_any}
use ethereum_elc.ClientState.{build_context}
use ethereum_elc.ClientState.Update.{check_header_and_update_state}
use ethereum_elc.ClientState.Update.Accepted.{check_header-HeaderAccepted}
use ethereum_elc.ClientState.Update.Order.{at_height}
use ethereum_elc.Header.{header, ethereum_header_type_url, validate_header, header_timestamp}
use ethereum_elc.Header.Codec.{client_message_from_ibc, header_from_ibc, header_try_from}
use ethereum_elc.Chain.{Chain, Holds, Reach}
use ethereum_elc.Chain.Sync.{Relay, begin, relayed, Relay-Reach}
use ethereum_elc.Tests.Instances.{local_crates}
use ethereum_elc.Tests.Handlers.{local_services}
use ethereum_elc.Tests.Wire
use ethereum_elc.Tests.Lawful.{local-IsLawful, local-IsCodec, local-IsWritable}
use ethereum_elc.Tests.States.{
  now, client, consensus, trusted, next_header, next_client, next_consensus, header_message,
  header_reads, client_reads, consensus_reads, written_consensus,
}
use ethereum_elc.Tests.Runs.{check_header_runs}
use ethereum_elc.Tests.Chains.{
  start, second_committee, second_header, second_client, second_consensus,
}

-- The second header as it is sent.
abbrev second_message : IbcAny
second_message = record {
  type_url = ethereum_header_type_url;
  value = Wire.header.put raw_header [];
}
  where
    raw_header : RawHeader
    raw_header = record {
      trusted_sync_committee = some second_committee;
      consensus_update = some second_header.consensus_update;
      execution_update = some second_header.execution_update;
      account_update = some 6;
    }

second_reads : client_message_from_ibc second_message ≡ ok (header second_header)
unfolding client_message_from_ibc header_from_ibc header_try_from
second_reads = refl

check_second_runs :
    check_header_and_update_state client now next_consensus second_header
    ≡ ok (second_client, second_consensus)
unfolding check_header_and_update_state validate_header header_timestamp build_context
check_second_runs = refl

two_headers : Relay client trusted consensus 30 (record { number = 0; block = 30 }) second_consensus
two_headers =
    relayed
      (relayed begin now header_message next_header next_client header_reads refl
        ((check_header-HeaderAccepted _ _ _ _ _ _).0 check_header_runs)
        (record { current_key = refl; next_key = refl }) refl)
      now second_message second_header second_client second_reads refl
      ((check_header-HeaderAccepted _ _ _ _ _ _).0 check_second_runs)
      (record { current_key = refl; next_key = refl }) refl

Relay-Reach_example :
    (d : Chain) × Reach "ethereum-0" start d
    × Holds d (at_height client 30)
    × (any_final : IbcAny) × (d.consensus (record { number = 0; block = 30 }) ≡ success any_final)
    × (consensus_state_from_any any_final ≡ ok second_consensus)
Relay-Reach_example =
    Relay-Reach local-IsLawful local-IsCodec local-IsWritable start "ethereum-0" client trusted
      consensus (written_consensus consensus) client_reads refl refl consensus_reads two_headers
