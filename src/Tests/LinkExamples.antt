-- ===== src/Tests/LinkExamples.antt =====
-- The theorems on how calls join and on what a client ends in, at the chains of `Chains`.
use mathlib.Core.Logic.{◌∨₁◌}
use ethereum_elc.Base.{◌≡◌, ◌≢◌, refl, some, List, ◌∷◌, [], ok, String, ℕ, Bool}
use ethereum_elc.ClientState.{ClientState, validate_client_state}
use ethereum_elc.StateId.{gen_state_id}
use ethereum_elc.StateId.Identity.{Parameters, identify}
use ethereum_elc.StateId.Collision.{IsCollision, identify_determines}
use ethereum_elc.Services.{
  UpdateStateProxyMessage, VerifyMembershipResult, VerifyNonMembershipResult,
}
use mathlib.Core.Quot.{Quot}
use ethereum_elc.External.Proto.{IbcAny}
use ethereum_elc.ConsensusState.Codec.{consensus_state_to_any}
use ethereum_elc.ClientState.Codec.{client_state_to_any}
use ethereum_elc.ClientState.Codec.RoundTrip as ClientRoundTrip
use ethereum_elc.Tests.CodecExamples.{client-IsRepresentable, consensus-IsRepresentable}
use ethereum_elc.Client.{client_latest_height}
use ethereum_elc.Client.Update.{update_client}
use ethereum_elc.Client.Membership.{verify_membership, verify_non_membership}
use ethereum_elc.Client.Membership.Verified.{
  verify_membership-MembershipVerified, verify_non_membership-NonMembershipVerified,
}
use ethereum_elc.Client.Read.{read_states-StatesRead}
use ethereum_elc.Chain.{Holds, host_at, here}
use ethereum_elc.Chain.Latest.{client_latest_height-Reach}
use ethereum_elc.Chain.Created.{create_client-validate, create_client-linked}
use ethereum_elc.Chain.Freeze.{submit_misbehaviour_final}
use ethereum_elc.Chain.Links.{verify_membership-linked, verify_non_membership-linked}
use ethereum_elc.Tests.Local.{LocalHeight}
use ethereum_elc.Tests.Instances.{local_crates}
use ethereum_elc.Tests.Handlers.{local_services}
use ethereum_elc.Tests.Lawful.{local-IsLawful, local-IsCodec}
use ethereum_elc.Tests.States.{
  now, client, consensus, next_header, next_client, next_consensus, forged, forged_message, written,
  written_consensus, client_reads,
}
use ethereum_elc.Tests.Runs.{id_of, updated, reported, update_state_runs, submit_misbehaviour_runs}
use ethereum_elc.Tests.Creation.{created, create_runs}
use ethereum_elc.Tests.Chains.{
  start, advanced, frozen_chain, advance_reach, advance-Recorded, height_20, read_second,
}

client_latest_height-Reach_example :
    client_latest_height (host_at advanced now) "ethereum-0" ≡ ok height_20
client_latest_height-Reach_example =
    client_latest_height-Reach local-IsLawful local-IsCodec "ethereum-0" client advance_reach now
      client_reads

create_client-validate_example :
    (s : ClientState) × Holds advanced s × (validate_client_state s ≡ ok tt)
create_client-validate_example =
    create_client-validate local-IsLawful local-IsCodec (written client)
      (written_consensus consensus) created "ethereum-0" create_runs refl advance_reach

create_client-linked_example :
    (m : UpdateStateProxyMessage) × (created.message ≡ tt)
    × (updated.message.prev_state_id ≡ some m.post_state_id)
create_client-linked_example =
    create_client-linked local-IsLawful local-IsCodec (written client) (written_consensus consensus)
      created "ethereum-0" start start now next_header updated create_runs refl here refl refl
      update_state_runs

submit_misbehaviour_final_example :
    ((message : IbcAny) (x : Bool)
      → update_client (host_at frozen_chain now) "ethereum-0" message ≢ ok x)
    × ((prefix : List ℕ) (path : String) (value : List ℕ) (height : LocalHeight) (proof : List ℕ)
          (x : VerifyMembershipResult)
        → verify_membership (host_at frozen_chain now) "ethereum-0" prefix path value height proof
          ≢ ok x)
    × ((prefix : List ℕ) (path : String) (height : LocalHeight) (proof : List ℕ)
          (x : VerifyNonMembershipResult)
        → verify_non_membership (host_at frozen_chain now) "ethereum-0" prefix path height proof
          ≢ ok x)
submit_misbehaviour_final_example =
    submit_misbehaviour_final local-IsLawful local-IsCodec start frozen_chain frozen_chain now now
      "ethereum-0" forged_message forged reported submit_misbehaviour_runs refl here

-- Proofs at the height of the update.
abbrev verified : VerifyMembershipResult
verified = record { message = updated.message.post_state_id }

abbrev absent : VerifyNonMembershipResult
absent = record { message = updated.message.post_state_id }

next_id_known : gen_state_id next_client next_consensus ≡ ok (id_of next_client next_consensus)
unfolding gen_state_id client_state_to_any consensus_state_to_any
next_id_known = refl

membership_runs :
    verify_membership (host_at advanced now) "ethereum-0" [] "path" (1 ∷ []) height_20 (2 ∷ [])
    ≡ ok verified
membership_runs =
    (verify_membership-MembershipVerified (host_at advanced now) "ethereum-0" [] "path" (1 ∷ [])
        height_20 (2 ∷ []) verified).1
      (record {
        client = next_client;
        consensus = next_consensus;
        committed = 1 ∷ [];
        state_id = id_of next_client next_consensus;
        states =
            (read_states-StatesRead (host_at advanced now) "ethereum-0" height_20 next_client
                next_consensus).0
              read_second;
        verified = refl;
        id_known = next_id_known;
        message_known = refl;
      })

non_membership_runs :
    verify_non_membership (host_at advanced now) "ethereum-0" [] "path" height_20 (2 ∷ [])
    ≡ ok absent
non_membership_runs =
    (verify_non_membership-NonMembershipVerified (host_at advanced now) "ethereum-0" [] "path"
        height_20 (2 ∷ []) absent).1
      (record {
        client = next_client;
        consensus = next_consensus;
        state_id = id_of next_client next_consensus;
        states =
            (read_states-StatesRead (host_at advanced now) "ethereum-0" height_20 next_client
                next_consensus).0
              read_second;
        verified = refl;
        id_known = next_id_known;
        message_known = refl;
      })

verify_membership-linked_example :
    (committed : List ℕ) × (verified.message ≡ updated.message.post_state_id)
verify_membership-linked_example =
    verify_membership-linked local-IsLawful local-IsCodec start advanced advanced now now
      "ethereum-0" next_header updated [] "path" (1 ∷ []) (2 ∷ []) verified update_state_runs
      advance-Recorded membership_runs

verify_non_membership-linked_example : absent.message ≡ updated.message.post_state_id
verify_non_membership-linked_example =
    verify_non_membership-linked local-IsLawful local-IsCodec start advanced advanced now now
      "ethereum-0" next_header updated [] "path" (2 ∷ []) absent update_state_runs advance-Recorded
      non_membership_runs

next-IsRepresentable : ClientRoundTrip.IsRepresentable next_client
unfolding ethereum_elc.ClientState.Codec.fork_parameters_into
next-IsRepresentable = record {
  fork_parameters =
      (ethereum_elc.ClientState.Codec.fork_parameters_into client.fork_parameters, refl);
  trust_level = refl;
  trusting_period = refl;
  max_clock_drift = refl;
  consensus_verifier = refl;
  execution_verifier = refl;
}

abbrev parameters : Parameters
parameters = Quot.mk (client, client-IsRepresentable)

abbrev next_parameters : Parameters
next_parameters = Quot.mk (next_client, next-IsRepresentable)

identify-parameters : identify parameters consensus ≡ some (id_of client consensus)
unfolding identify gen_state_id client_state_to_any consensus_state_to_any
identify-parameters = refl

identify_next : identify next_parameters consensus ≡ some (id_of client consensus)
unfolding identify gen_state_id client_state_to_any consensus_state_to_any
identify_next = refl

identify_determines_example :
    ((parameters ≡ next_parameters) × (consensus ≡ consensus))
    ∨₁ IsCollision (id_of client consensus)
identify_determines_example =
    identify_determines local-IsLawful local-IsCodec parameters next_parameters consensus consensus
      consensus-IsRepresentable consensus-IsRepresentable identify-parameters identify_next
