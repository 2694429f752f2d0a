-- ===== src/Tests/RefusedExamples.antt =====
-- The theorems on refused calls, at a client that is frozen and at states that do not read.
use ethereum_elc.Base.{◌≡◌, refl, [], ◌∷◌, failure, err}
use ethereum_elc.Errors.{unknown_client_state_type, zero_block_number}
use ethereum_elc.Misc.{to_lc_types_height}
use ethereum_elc.ClientState.Codec.{client_state_from_any}
use ethereum_elc.ClientState.Update.{check_header_and_update_state}
use ethereum_elc.ClientState.Update.Refused.{HeaderRefused, check_header-HeaderRefused}
use ethereum_elc.Header.{Header, misbehaviour, validate_header, ethereum_header_type_url}
use ethereum_elc.Client.{create_client}
use ethereum_elc.Client.Refused.{CreateRefused, create_client-CreateRefused}
use ethereum_elc.Client.Update.{update_client}
use ethereum_elc.Client.Update.Causes.{UpdateRefused}
use ethereum_elc.Client.Update.Refused.{update_client-UpdateRefused}
use ethereum_elc.Client.Membership.{
  verify_membership, verify_non_membership, client_state_impl, consensus_state_impl,
}
use ethereum_elc.Client.Membership.Refused.{ProofRefused, verify_membership-ProofRefused}
use ethereum_elc.Client.Frozen.{update_client_frozen, verify_membership_frozen}
use ethereum_elc.Tests.Instances.{local_crates}
use ethereum_elc.Tests.Handlers.{local_services}
use ethereum_elc.Tests.States.{
  now, client, consensus, trusted, next_header, forged, forged_message, header_message,
  frozen_client, written_consensus, host_of, forged_reads,
}
use ethereum_elc.Tests.CallExamples.{client_is_frozen}

update_refused :
    update_client (host_of frozen_client) "ethereum-0" forged_message ≡ err "the client is frozen"
update_refused =
    update_client_frozen (host_of frozen_client) "ethereum-0" forged_message (misbehaviour forged)
      (written_consensus consensus) client_is_frozen forged_reads refl

update_client-UpdateRefused_example :
    UpdateRefused (host_of frozen_client) "ethereum-0" forged_message "the client is frozen"
update_client-UpdateRefused_example =
    update_client-UpdateRefused (host_of frozen_client) "ethereum-0" forged_message
      "the client is frozen" update_refused

-- A header where a client state is wanted.
header_unread :
    client_state_from_any header_message ≡ err (unknown_client_state_type ethereum_header_type_url)
unfolding client_state_from_any
header_unread = refl

create_refused :
    create_client header_message (written_consensus consensus) ≡ err "an error of the client"
unfolding create_client
create_refused = rw header_unread refl

create_client-CreateRefused_example :
    CreateRefused header_message (written_consensus consensus) "an error of the client"
create_client-CreateRefused_example =
    create_client-CreateRefused header_message (written_consensus consensus)
      "an error of the client" create_refused

proofs_refused :
    (verify_membership (host_of frozen_client) "ethereum-0" [] "path" (1 ∷ []) trusted (2 ∷ [])
      ≡ err "the client is frozen")
    × (verify_non_membership (host_of frozen_client) "ethereum-0" [] "path" trusted (2 ∷ [])
        ≡ err "the client is frozen")
proofs_refused =
    verify_membership_frozen (host_of frozen_client) "ethereum-0" [] "path" (1 ∷ []) trusted
      (2 ∷ []) (written_consensus consensus) client_is_frozen refl

verify_membership-ProofRefused_example :
    ProofRefused
      (host_of frozen_client)
      "ethereum-0"
      trusted
      (λ s c f.
        local_services.verify_membership client_state_impl consensus_state_impl s c "path"
          (1 ∷ [])
          (to_lc_types_height trusted)
          (2 ∷ [])
          s.execution_verifier
        ≡ failure f)
      "the client is frozen"
verify_membership-ProofRefused_example =
    verify_membership-ProofRefused (host_of frozen_client) "ethereum-0" [] "path" (1 ∷ []) trusted
      (2 ∷ []) "the client is frozen" proofs_refused.0

-- A header of block 0.
abbrev block_0 : Header
block_0 = record next_header { execution_update = record { root = 3; block = 0; seconds = 1 } }

block_0_refused : check_header_and_update_state client now consensus block_0 ≡ err zero_block_number
unfolding check_header_and_update_state validate_header
block_0_refused = refl

check_header-HeaderRefused_example : HeaderRefused client now consensus block_0 zero_block_number
check_header-HeaderRefused_example =
    check_header-HeaderRefused client now consensus block_0 zero_block_number block_0_refused
