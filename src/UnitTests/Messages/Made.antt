-- ===== src/UnitTests/Messages/Made.antt =====
-- light-client/src/misbehaviour.rs, module `tests`: what the tests of messages rely on, and the
-- misbehaviour that they make and write.
use ethereum_elc.Base.{ℕ, ◌≡◌, refl, Bool, some, List, [], ◌∷◌, ok, success, failure}
use ethereum_elc.External.{Crates}
use ethereum_elc.Raw.{RawFinalizedHeaderMisbehaviour, RawNextSyncCommitteeMisbehaviour}
use ethereum_elc.Misbehaviour.{
  Misbehaviour, MisbehaviourData, finalized_header, next_sync_committee, validate_misbehaviour,
}
use ethereum_elc.Misbehaviour.Codec.{finalized_header_into, next_sync_committee_into}
use ethereum_elc.Misbehaviour.Codec.RoundTrip.{IsConvertible}
use ethereum_elc.Services.{Services}
use ethereum_elc.UnitTests.Messages.{MessageCrates, test_misbehaviour}

module _ ⦃C : Crates⦄ ⦃S : Services⦄ where
  open C use {
    LcHeight, ClientId, SyncCommittee, TrustedSyncCommittee, ConsensusUpdate, RawConsensusUpdate,
    DecodeError, client_id_from_str, client_id_as_str, trusted_sync_committee_validate,
    trusted_sync_committee_try_from, trusted_sync_committee_into, block_number, lc_height_new,
    convert_proto_to_consensus_update, convert_consensus_update_to_proto,
  }

  pub record IsMessageFixture (T : MessageCrates) (committee : SyncCommittee) : Type 0 where
    pub test_client_id : (i : ClientId) × (client_id_from_str "ethereum-0" ≡ success i)
    pub client_id-as_str : (i : ClientId) → client_id_from_str (client_id_as_str i) ≡ success i
    -- The fixture's committee has the aggregate key that it states.
    pub committee_valid :
        (h : LcHeight) (is_next : Bool)
        → trusted_sync_committee_validate (T.trusted_sync_committee_of h committee is_next)
          ≡ success tt
    pub committee-into :
        (c : TrustedSyncCommittee)
        → trusted_sync_committee_try_from (trusted_sync_committee_into c) ≡ success c
    pub update_writes :
        (u : ConsensusUpdate)
        → (raw : RawConsensusUpdate) × (convert_consensus_update_to_proto u ≡ success raw)
    pub update-to_proto :
        (u : ConsensusUpdate) (raw : RawConsensusUpdate)
        → convert_consensus_update_to_proto u ≡ success raw
        → convert_proto_to_consensus_update raw ≡ success u
    pub block_number-at : (n : ℕ) → block_number (T.execution_update_at n) ≡ n
    -- `prost` writes every message and reads what it wrote; no field has number 0.
    pub decode-encode_finalized_header :
        (m : RawFinalizedHeaderMisbehaviour)
        → (b : List ℕ) × (T.encode_finalized_header m ≡ success b)
          × (S.decode_finalized_header b ≡ success m)
    pub decode-encode_next_sync_committee :
        (m : RawNextSyncCommitteeMisbehaviour)
        → (b : List ℕ) × (T.encode_next_sync_committee m ≡ success b)
          × (S.decode_next_sync_committee b ≡ success m)
    pub invalid_finalized_header :
        (e : DecodeError) × (S.decode_finalized_header (0 ∷ 1 ∷ 2 ∷ []) ≡ failure e)
    pub invalid_next_sync_committee :
        (e : DecodeError) × (S.decode_next_sync_committee (0 ∷ 1 ∷ 2 ∷ []) ≡ failure e)

  module _ (T : MessageCrates) (committee : SyncCommittee) (update_1 update_2 : ConsensusUpdate)
      (F : IsMessageFixture T committee) where
    -- The misbehaviour of the tests converts back.
    pub made :
        (evidence : MisbehaviourData)
        → (m : Misbehaviour) × (test_misbehaviour T committee update_1 update_2 evidence ≡ ok m)
          × IsConvertible m
          × (m.evidence ≡ evidence)
          × (validate_misbehaviour m ≡ ok tt)
    unfolding test_misbehaviour validate_misbehaviour
    made evidence =
        let (i, parsed) = F.test_client_id in
        (
          record {
            client_id = i;
            trusted_sync_committee =
                T.trusted_sync_committee_of (lc_height_new 0 1) committee Bool.false;
            evidence = evidence;
          },
          rw parsed refl,
          record {
            client_id = F.client_id-as_str i;
            committee = F.committee-into _;
            update = F.update-to_proto;
          },
          refl,
          rw (F.committee_valid (lc_height_new 0 1) Bool.false) refl,
        )

    pub finalized_header_written :
        (m : Misbehaviour)
        → m.evidence ≡ finalized_header update_1 update_2
        → (raw : RawFinalizedHeaderMisbehaviour) × (finalized_header_into m ≡ ok raw)
    unfolding finalized_header_into
    finalized_header_written m kind =
        let (raw_1, first) = F.update_writes update_1 in
        let (raw_2, second) = F.update_writes update_2 in
        (
          record {
            client_id = client_id_as_str m.client_id;
            trusted_sync_committee = some (trusted_sync_committee_into m.trusted_sync_committee);
            consensus_update_1 = some raw_1;
            consensus_update_2 = some raw_2;
          },
          rw kind (rw (first, second) refl),
        )

    pub next_sync_committee_written :
        (m : Misbehaviour)
        → m.evidence ≡ next_sync_committee update_1 update_2
        → (raw : RawNextSyncCommitteeMisbehaviour) × (next_sync_committee_into m ≡ ok raw)
    unfolding next_sync_committee_into
    next_sync_committee_written m kind =
        let (raw_1, first) = F.update_writes update_1 in
        let (raw_2, second) = F.update_writes update_2 in
        (
          record {
            client_id = client_id_as_str m.client_id;
            trusted_sync_committee = some (trusted_sync_committee_into m.trusted_sync_committee);
            consensus_update_1 = some raw_1;
            consensus_update_2 = some raw_2;
          },
          rw kind (rw (first, second) refl),
        )
