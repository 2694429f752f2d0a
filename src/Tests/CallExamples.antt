-- ===== src/Tests/CallExamples.antt =====
-- The theorems on the single calls, at the states of `States`.
use ethereum_elc.Base.{arith, ◌≡◌, refl, ◌∷◌, [], ok, err, NeverPanics}
use ethereum_elc.Errors.{uninitialized_client_state_field, uninitialized_consensus_state_field}
use ethereum_elc.ConsensusState.{ConsensusState, validate_consensus_state}
use ethereum_elc.ConsensusState.Checks as ConsensusChecks
use ethereum_elc.ClientState.{ClientState, validate_client_state}
use ethereum_elc.ClientState.Checks as ClientChecks
use ethereum_elc.Client.{create_client, client_latest_height}
use ethereum_elc.Client.Create.{create_client-Created}
use ethereum_elc.ClientState.Update.{check_misbehaviour_and_update_state}
use ethereum_elc.ClientState.Update.Accepted.{check_misbehaviour-MisbehaviourAccepted}
use ethereum_elc.Client.Update.{update_client}
use ethereum_elc.Client.Membership.{verify_membership, verify_non_membership}
use ethereum_elc.Client.Membership.Verified.{verify_membership-MembershipVerified}
use ethereum_elc.Client.Frozen.{IsFrozenAt}
use ethereum_elc.Client.Panics.{
  update_client-NeverPanics, create_client-NeverPanics, verify_non_membership-NeverPanics,
  client_latest_height-NeverPanics,
}
use ethereum_elc.Tests.Instances.{local_crates}
use ethereum_elc.Tests.Handlers.{local_services}
use ethereum_elc.Tests.Lawful.{local-IsLawful}
use ethereum_elc.Tests.States.{
  now, client, consensus, trusted, forged, forged_message, frozen_client, written,
  written_consensus, host_of, frozen_client_reads,
}
use ethereum_elc.Tests.Runs.{id_of, read_runs, forged_accepted}
use ethereum_elc.Tests.Creation.{
  client-IsInitialized, consensus-IsInitialized, created, created_parts, id_known,
}
use ethereum_elc.Client.Read.{read_states-StatesRead}

validate_client_state-IsInitialized_example : validate_client_state client ≡ ok tt
validate_client_state-IsInitialized_example =
    (ClientChecks.validate_client_state-IsInitialized client).1 client-IsInitialized

-- A state without a genesis time.
abbrev unset : ClientState
unset = record client { genesis_time = 0 }

unset_refused : validate_client_state unset ≡ err (uninitialized_client_state_field "genesis_time")
unfolding validate_client_state
unset_refused = ground arith

validate_client_state-Reports_example :
    ClientChecks.Reports unset (uninitialized_client_state_field "genesis_time")
validate_client_state-Reports_example =
    ClientChecks.validate_client_state-Reports unset
      (uninitialized_client_state_field "genesis_time") unset_refused

abbrev unset_consensus : ConsensusState
unset_consensus = record consensus { slot = 0 }

unset_consensus_refused :
    validate_consensus_state unset_consensus ≡ err (uninitialized_consensus_state_field "slot")
unfolding validate_consensus_state
unset_consensus_refused = ground arith

validate_consensus_state-Reports_example :
    ConsensusChecks.Reports unset_consensus (uninitialized_consensus_state_field "slot")
validate_consensus_state-Reports_example =
    ConsensusChecks.validate_consensus_state-Reports unset_consensus
      (uninitialized_consensus_state_field "slot") unset_consensus_refused

validate_consensus_state-IsInitialized_example : validate_consensus_state consensus ≡ ok tt
validate_consensus_state-IsInitialized_example =
    (ConsensusChecks.validate_consensus_state-IsInitialized consensus refl).1
      consensus-IsInitialized

create_client-Created_example :
    create_client (written client) (written_consensus consensus) ≡ ok created
create_client-Created_example =
    (create_client-Created (written client) (written_consensus consensus) created).1 created_parts

pub client_is_frozen : IsFrozenAt (host_of frozen_client) "ethereum-0" trusted
client_is_frozen = record {
  any_client = written frozen_client;
  client = frozen_client;
  stored = refl;
  client_read = frozen_client_reads;
  frozen = refl;
}

verify_membership-MembershipVerified_example :
    verify_membership (host_of client) "ethereum-0" [] "path" (1 ∷ []) trusted (2 ∷ [])
    ≡ ok (record { message = id_of client consensus })
verify_membership-MembershipVerified_example =
    (verify_membership-MembershipVerified (host_of client) "ethereum-0" [] "path" (1 ∷ []) trusted
        (2 ∷ []) (record { message = id_of client consensus })).1
      (record {
        client = client;
        consensus = consensus;
        committed = 1 ∷ [];
        state_id = id_of client consensus;
        states =
            (read_states-StatesRead (host_of client) "ethereum-0" trusted client consensus).0
              read_runs;
        verified = refl;
        id_known = id_known;
        message_known = refl;
      })

update_client-NeverPanics_example :
    NeverPanics (update_client (host_of client) "ethereum-0" forged_message)
update_client-NeverPanics_example =
    update_client-NeverPanics local-IsLawful (host_of client) "ethereum-0" forged_message

create_client-NeverPanics_example :
    NeverPanics (create_client (written client) (written_consensus consensus))
create_client-NeverPanics_example =
    create_client-NeverPanics local-IsLawful (written client) (written_consensus consensus)

client_latest_height-NeverPanics_example :
    NeverPanics (client_latest_height (host_of client) "ethereum-0")
client_latest_height-NeverPanics_example =
    client_latest_height-NeverPanics local-IsLawful (host_of client) "ethereum-0"

verify_non_membership-NeverPanics_example :
    NeverPanics (verify_non_membership (host_of client) "ethereum-0" [] "path" trusted (2 ∷ []))
verify_non_membership-NeverPanics_example =
    verify_non_membership-NeverPanics local-IsLawful (host_of client) "ethereum-0" [] "path" trusted
      (2 ∷ [])

check_misbehaviour-MisbehaviourAccepted_example :
    check_misbehaviour_and_update_state client now "ethereum-0" consensus forged ≡ ok frozen_client
check_misbehaviour-MisbehaviourAccepted_example =
    (check_misbehaviour-MisbehaviourAccepted client now "ethereum-0" consensus forged
        frozen_client).1
      forged_accepted
