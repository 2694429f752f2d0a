-- ===== src/Tests/ChainExamples.antt =====
-- The theorems on the client over time and on what its calls return, at the chains of `Chains`.
use ethereum_elc.Base.{false, ◌≡◌, ◌≢◌, ◌⊎◌, ◌≤◌, refl, none, some, ◌∷◌, [], ok, map, All}
use ethereum_elc.ClientState.{ClientState, canonicalize}
use ethereum_elc.ClientState.Update.Accepted.{HeaderAccepted, check_header-HeaderAccepted}
use ethereum_elc.Client.Read.{StatesRead, read_states-StatesRead}
use ethereum_elc.Client.Update.{update_client}
use ethereum_elc.Client.Update.Updated.{by_misbehaviour, update_client-ClientUpdated}
use ethereum_elc.Client.Update.Processed.{
  HeaderProcessed, MisbehaviourProcessed, update_state-HeaderProcessed,
  submit_misbehaviour-MisbehaviourProcessed,
}
use ethereum_elc.Client.Update.PrevStates.{Identified, make_prev_states-Identified}
use ethereum_elc.Services.{PrevState}
use ethereum_elc.Chain.{Holds, Step}
use ethereum_elc.Chain.View.{view, Allowed, Step-Allowed, Step_frozen, Reach-view}
use ethereum_elc.Chain.Evidence.{evidence, freezes, Reach-freezes}
use ethereum_elc.Chain.Links.{update_state-linked, submit_misbehaviour-linked}
use ethereum_elc.Tests.Instances.{local_crates}
use ethereum_elc.Tests.Handlers.{local_services}
use ethereum_elc.Tests.Lawful.{local-IsLawful, local-IsCodec}
use ethereum_elc.Tests.States.{
  now, client, consensus, trusted, next_header, next_client, next_consensus, forged, forged_message,
  frozen_client, host_of, client_reads, frozen_client_reads, forged_reads,
}
use ethereum_elc.Tests.Runs.{
  updated, reported, id_of, read_runs, check_header_runs, update_state_runs,
  submit_misbehaviour_runs, prev_states_made,
}
use ethereum_elc.Tests.Chains.{
  start, frozen_chain, advanced, advance_step, advance_reach, freeze_reach, advance-Recorded,
  second_header, second_updated, second_update_runs, second_forged, second_reported,
  second_misbehaviour_runs, height_20,
}

Reach-view_example :
    (t : ClientState) × Holds advanced t
    × (canonicalize t ≡ canonicalize client)
    × (10 ≤ t.latest_execution_block_number)
    × ((client.frozen_height ≡ none) ⊎ (t ≡ client))
Reach-view_example =
    Reach-view local-IsLawful local-IsCodec "ethereum-0" client advance_reach client_reads

Reach-freezes_example : freezes frozen_client.frozen_height ≡ evidence "ethereum-0" freeze_reach
Reach-freezes_example =
    Reach-freezes local-IsLawful local-IsCodec "ethereum-0" client frozen_client freeze_reach refl
      client_reads frozen_client_reads

Step-Allowed_example : (t : ClientState) × Holds advanced t × Allowed (view client) (view t)
Step-Allowed_example =
    Step-Allowed local-IsLawful local-IsCodec "ethereum-0" client advance_step client_reads

some_not_none : some trusted ≢ none
some_not_none e = cc e

Step_frozen_example : ¬ Step "ethereum-0" frozen_chain advanced
Step_frozen_example =
    Step_frozen local-IsLawful local-IsCodec "ethereum-0" frozen_client frozen_client_reads
      some_not_none

update_state-linked_example :
    (second_updated.message.prev_height ≡ some height_20)
    × (second_updated.message.prev_state_id ≡ some updated.message.post_state_id)
update_state-linked_example =
    update_state-linked local-IsLawful local-IsCodec start advanced advanced now now "ethereum-0"
      next_header second_header updated second_updated update_state_runs advance-Recorded refl
      second_update_runs

submit_misbehaviour-linked_example :
    second_reported.message.prev_states
    ≡ record { height = height_20; state_id = updated.message.post_state_id } ∷ []
submit_misbehaviour-linked_example =
    submit_misbehaviour-linked local-IsLawful local-IsCodec start advanced advanced now now
      "ethereum-0" next_header updated forged_message second_forged second_reported
      update_state_runs advance-Recorded refl second_misbehaviour_runs

read_states-StatesRead_example : StatesRead (host_of client) "ethereum-0" trusted client consensus
read_states-StatesRead_example =
    (read_states-StatesRead (host_of client) "ethereum-0" trusted client consensus).0 read_runs

update_state-HeaderProcessed_example :
    HeaderProcessed (host_of client) "ethereum-0" next_header updated
update_state-HeaderProcessed_example =
    (update_state-HeaderProcessed (host_of client) "ethereum-0" next_header updated).0
      update_state_runs

submit_misbehaviour-MisbehaviourProcessed_example :
    MisbehaviourProcessed (host_of client) "ethereum-0" forged_message forged reported
submit_misbehaviour-MisbehaviourProcessed_example =
    (submit_misbehaviour-MisbehaviourProcessed (host_of client) "ethereum-0" forged_message forged
        reported).0
      submit_misbehaviour_runs

update_client-ClientUpdated_example :
    update_client (host_of client) "ethereum-0" forged_message ≡ ok false
update_client-ClientUpdated_example =
    (update_client-ClientUpdated (host_of client) "ethereum-0" forged_message false).1 (
      by_misbehaviour forged reported forged_reads
        ((submit_misbehaviour-MisbehaviourProcessed (host_of client) "ethereum-0" forged_message
            forged reported).0
          submit_misbehaviour_runs)
        refl)

check_header-HeaderAccepted_example :
    HeaderAccepted client now consensus next_header next_client next_consensus
check_header-HeaderAccepted_example =
    (check_header-HeaderAccepted client now consensus next_header next_client next_consensus).0
      check_header_runs

make_prev_states-Identified_example :
    (map
        (λ (p : PrevState). p.height)
        (record { height = trusted; state_id = id_of client consensus } ∷ [])
      ≡ trusted ∷ [])
    × All
        (Identified (host_of client) "ethereum-0" client)
        (record { height = trusted; state_id = id_of client consensus } ∷ [])
make_prev_states-Identified_example =
    make_prev_states-Identified (host_of client) "ethereum-0" client (trusted ∷ []) prev_states_made
