-- ===== src/Tests/Handlers.antt =====
-- The generic functions at the crates of `Instances`. Evidence is two different updates of one
-- slot; the prover of storage accepts a proof that repeats the value.
use ethereum_elc.Base.{
  ℕ, Bool, true, false, not, ◌&&◌, String, Option, Result, success, failure, leb, length, ◌==◌,
  if◌then◌else◌,
}
use ethereum_elc.Errors.{Error, client_frozen}
use ethereum_elc.Raw.{RawFinalizedHeaderMisbehaviour, RawNextSyncCommitteeMisbehaviour}
use ethereum_elc.Misbehaviour.{MisbehaviourData, finalized_header, next_sync_committee}
use ethereum_elc.Services.{Services}
use ethereum_elc.Tests.Local.{LocalCommittee, LocalUpdate, check}
use ethereum_elc.Tests.Instances.{local_crates}
use ethereum_elc.Tests.Coder.{encode, decode}
use ethereum_elc.Tests.Wire.{client_state, consensus_state, header, evidence}

abbrev pub conflicting : LocalUpdate → LocalUpdate → Bool
conflicting u v = u.slot == v.slot && not (u.next_key == v.next_key)

abbrev pub is_evidence : ℕ → MisbehaviourData → Bool
is_evidence trusted (finalized_header u v) = conflicting u v
is_evidence trusted (next_sync_committee u v) = conflicting u v

abbrev pub Evidence : Type 0
Evidence = Option LocalCommittee × (Option LocalUpdate × Option LocalUpdate)

-- The evidence of one client, whose name is not written.
abbrev pub as_finalized_header :
    Result (Unit {0}) Evidence → Result (Unit {0}) RawFinalizedHeaderMisbehaviour
as_finalized_header (failure e) = failure e
as_finalized_header (success (committee, (u, v))) = success (record {
  client_id = "ethereum-0";
  trusted_sync_committee = committee;
  consensus_update_1 = u;
  consensus_update_2 = v;
})

abbrev pub as_next_sync_committee :
    Result (Unit {0}) Evidence → Result (Unit {0}) RawNextSyncCommitteeMisbehaviour
as_next_sync_committee (failure e) = failure e
as_next_sync_committee (success (committee, (u, v))) = success (record {
  client_id = "ethereum-0";
  trusted_sync_committee = committee;
  consensus_update_1 = u;
  consensus_update_2 = v;
})

abbrev pub error_text : Error → String
error_text (client_frozen client_id) = "the client is frozen"
error_text e = "an error of the client"

instance abbrev pub local_services : Services
local_services = record {
  trusted_state_new = λ info state key next.
      let i = info state in
      if key == (if next then i.next_sync_committee else i.current_sync_committee)
      then success key
      else failure tt;
  compute_sync_committees = λ info context state update.
      let i = info state in
      if leb (i.current_period context) update.slot
      then success (i.next_sync_committee, update.next_key)
      else failure tt;
  verify_membership =
      λ _ _ _ _ _ value _ proof _. if leb 1 (length proof) then success value else failure tt;
  verify_non_membership = λ _ _ _ _ _ _ proof _. check (leb 1 (length proof));
  validate_updates = λ _ _ _ update execution. check (leb execution.block update.slot);
  verify_misbehaviour = λ _ _ trusted m. check (is_evidence trusted m);
  encode_client_state = encode client_state;
  decode_client_state = decode client_state;
  encode_consensus_state = encode consensus_state;
  decode_consensus_state = decode consensus_state;
  decode_header = decode header;
  decode_finalized_header = λ b. as_finalized_header (decode evidence b);
  decode_next_sync_committee = λ b. as_next_sync_committee (decode evidence b);
  specific_error = error_text;
  update_message_into = λ _. tt;
  update_result_from_state = λ _. true;
  update_result_from_misbehaviour = λ _. false;
}
