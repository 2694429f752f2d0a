-- ===== src/Tests/MockExamples.antt =====
-- The unit tests of the calls, over the memory of `MemStore`.
use ethereum_elc.Base.{◌≡◌, refl, some, false, ok, success, String}
use ethereum_elc.ClientState.{ClientState, build_context}
use ethereum_elc.ClientState.Update.{check_header_and_update_state}
use ethereum_elc.ClientState.Update.Accepted.{MisbehaviourAccepted, check_header-HeaderAccepted}
use ethereum_elc.Header.{Header, validate_header, header_timestamp}
use ethereum_elc.Misbehaviour.{Misbehaviour}
use ethereum_elc.UnitTests.{run_tests}
use ethereum_elc.UnitTests.Calls.{CallCrates}
use ethereum_elc.UnitTests.Calls.SetUp.{IsCallFixture}
use ethereum_elc.UnitTests.Calls.Pass.{IsScenario, call_tests, call_tests_pass}
use ethereum_elc.Tests.Local.{LocalCommittee}
use ethereum_elc.Tests.Instances.{local_crates}
use ethereum_elc.Tests.Handlers.{local_services}
use ethereum_elc.Tests.Lawful.{local-IsLawful, local-IsCodec, local-IsWritable}
use ethereum_elc.Tests.States.{now, client, consensus, next_header, next_consensus, forged}
use ethereum_elc.Tests.Creation.{client-IsInitialized, consensus_valid}
use ethereum_elc.Tests.CodecExamples.{client-IsRepresentable, consensus-IsRepresentable}
use ethereum_elc.Tests.UnitExamples.{optional_height_dec}
use ethereum_elc.Tests.MemStore.{local_store, local-IsKeeper}

abbrev local_calls : CallCrates
local_calls = record {
  client_id_new = λ name n. success name;
  any_new = λ url value. record { type_url = url; value = value };
  frozen_height_dec = optional_height_dec;
}

local-IsCallFixture : IsCallFixture local_calls
local-IsCallFixture = record {
  client_id_new_total = λ n. (_, refl);
  any_into-any_new = λ url value. refl;
  lc_revision_number-new = λ n h. refl;
  lc_revision_height-new = λ n h. refl;
  epoch = (_, refl);
}

abbrev first_committee : LocalCommittee
first_committee = record { height = record { number = 0; block = 1 }; key = 11; next = false }

abbrev header_100 : Header
header_100 = record next_header {
  trusted_sync_committee = first_committee;
  execution_update = record { root = 3; block = 100; seconds = 1699999000 };
}

abbrev client_100 : ClientState
client_100 = record client { latest_execution_block_number = 100 }

abbrev evidence_of : String → Misbehaviour
evidence_of i = record forged { client_id = i; trusted_sync_committee = first_committee }

abbrev frozen_first : ClientState
frozen_first = record client { frozen_height = some (record { number = 0; block = 1 }) }

check_header_100 :
    check_header_and_update_state client now consensus header_100 ≡ ok (client_100, next_consensus)
unfolding check_header_and_update_state validate_header header_timestamp build_context
check_header_100 = refl

evidence_of_accepted :
    (i : String) → MisbehaviourAccepted client now i consensus (evidence_of i) frozen_first
unfolding build_context
evidence_of_accepted i = record {
  trusted = 11;
  committee_valid = refl;
  same_client = refl;
  committee_trusted = refl;
  evidence_verified = refl;
  state_not_expired = refl;
  new_client_state = refl;
}

scenario : IsScenario client consensus now header_100 evidence_of
scenario = record {
  new_client = client_100;
  new_consensus = next_consensus;
  frozen_client = λ i. frozen_first;
  representable = record {
    client_representable = client-IsRepresentable;
    consensus_representable = consensus-IsRepresentable;
  };
  initialized = client-IsInitialized;
  unfrozen = refl;
  consensus_valid = consensus_valid;
  header_trusts = refl;
  header_accepted = (check_header-HeaderAccepted _ _ _ _ _ _).0 check_header_100;
  header_block = refl;
  evidence_trusts = λ i. refl;
  evidence_accepted = evidence_of_accepted;
}

call_tests_pass_example :
    run_tests (call_tests local_store local_calls client consensus now header_100 evidence_of)
    ≡ ok tt
call_tests_pass_example =
    call_tests_pass local_store local_calls local-IsLawful local-IsCodec local-IsWritable
      local-IsKeeper local-IsCallFixture client consensus now header_100 evidence_of scenario
