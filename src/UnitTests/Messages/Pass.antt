-- ===== src/UnitTests/Messages/Pass.antt =====
-- light-client/src/header.rs and light-client/src/misbehaviour.rs: the modules `tests` pass, whatever the
-- updates are.
use ethereum_elc.Base.{◌≡◌, refl, Bool, List, [], ◌∷◌, ok}
use ethereum_elc.External.{Crates}
use ethereum_elc.Header.{validate_header}
use ethereum_elc.Header.Codec.{header_from_ibc, client_message_from_ibc}
use ethereum_elc.Misbehaviour.{finalized_header, next_sync_committee}
use ethereum_elc.Misbehaviour.Codec.{misbehaviour_from_ibc}
use ethereum_elc.Misbehaviour.Codec.RoundTrip.{
  finalized_header_try_from-into, next_sync_committee_try_from-into,
}
use ethereum_elc.Services.{Services}
use ethereum_elc.UnitTests.{TestRun, run_tests, decided_self}
use ethereum_elc.UnitTests.Messages.{
  MessageCrates, test_header, test_client_message_from_any_unknown_type,
  test_header_from_any_unknown_type, test_header_validate_success,
  test_header_validate_zero_block_number, test_misbehaviour_from_any_unknown_type,
  test_misbehaviour_from_any_invalid_finalized_header,
  test_misbehaviour_from_any_invalid_next_sync_committee, test_misbehaviour_validate_success,
  test_next_sync_committee_misbehaviour_proto_roundtrip,
  test_finalized_header_misbehaviour_proto_roundtrip,
  test_misbehaviour_from_ibc_any_finalized_header,
  test_misbehaviour_from_ibc_any_next_sync_committee,
}
use ethereum_elc.UnitTests.Messages.Made.{
  IsMessageFixture, made, finalized_header_written, next_sync_committee_written,
}

module _ ⦃C : Crates⦄ ⦃S : Services⦄ where
  open C use {
    LcHeight, ClientId, SyncCommittee, TrustedSyncCommittee, ConsensusUpdate, RawConsensusUpdate,
    DecodeError, client_id_from_str, client_id_as_str, trusted_sync_committee_validate,
    trusted_sync_committee_try_from, trusted_sync_committee_into, block_number, lc_height_new,
    convert_proto_to_consensus_update, convert_consensus_update_to_proto,
  }

  module _ (T : MessageCrates) (committee : SyncCommittee)
      (update_1 update_2 : ConsensusUpdate) where
    pub message_tests : List (TestRun (Unit {0}))
    message_tests =
        test_client_message_from_any_unknown_type
        ∷ test_header_from_any_unknown_type
        ∷ test_header_validate_success T committee update_1 update_2
        ∷ test_header_validate_zero_block_number T committee update_1 update_2
        ∷ test_misbehaviour_from_any_unknown_type
        ∷ test_misbehaviour_from_any_invalid_finalized_header
        ∷ test_misbehaviour_from_any_invalid_next_sync_committee
        ∷ test_misbehaviour_validate_success T committee update_1 update_2
        ∷ test_next_sync_committee_misbehaviour_proto_roundtrip T committee update_1 update_2
        ∷ test_finalized_header_misbehaviour_proto_roundtrip T committee update_1 update_2
        ∷ test_misbehaviour_from_ibc_any_finalized_header T committee update_1 update_2
        ∷ test_misbehaviour_from_ibc_any_next_sync_committee T committee update_1 update_2
        ∷ []

    module _ (F : IsMessageFixture T committee) where
      unknown_message_passes : test_client_message_from_any_unknown_type ≡ ok tt
      unfolding test_client_message_from_any_unknown_type client_message_from_ibc
      unknown_message_passes = refl

      unknown_header_passes : test_header_from_any_unknown_type ≡ ok tt
      unfolding test_header_from_any_unknown_type header_from_ibc
      unknown_header_passes = refl

      unknown_misbehaviour_passes : test_misbehaviour_from_any_unknown_type ≡ ok tt
      unfolding test_misbehaviour_from_any_unknown_type misbehaviour_from_ibc
      unknown_misbehaviour_passes = refl

      invalid_finalized_passes : test_misbehaviour_from_any_invalid_finalized_header ≡ ok tt
      unfolding test_misbehaviour_from_any_invalid_finalized_header misbehaviour_from_ibc
      invalid_finalized_passes = rw F.invalid_finalized_header.1 refl

      invalid_next_passes : test_misbehaviour_from_any_invalid_next_sync_committee ≡ ok tt
      unfolding test_misbehaviour_from_any_invalid_next_sync_committee misbehaviour_from_ibc
      invalid_next_passes = rw F.invalid_next_sync_committee.1 refl

      header_passes : test_header_validate_success T committee update_1 update_2 ≡ ok tt
      unfolding test_header_validate_success test_header validate_header
      header_passes =
          rw (F.committee_valid (lc_height_new 0 1) Bool.true, F.block_number-at 100) refl

      zero_block_passes :
          test_header_validate_zero_block_number T committee update_1 update_2 ≡ ok tt
      unfolding test_header_validate_zero_block_number test_header validate_header
      zero_block_passes =
          rw (F.committee_valid (lc_height_new 0 1) Bool.true, F.block_number-at 0) refl

      validate_passes : test_misbehaviour_validate_success T committee update_1 update_2 ≡ ok tt
      unfolding test_misbehaviour_validate_success
      validate_passes =
          let (m, is_made, _, _, valid) =
            made T committee update_1 update_2 F (finalized_header update_1 update_2) in
          rw (is_made, valid) refl

      finalized_roundtrip_passes :
          test_finalized_header_misbehaviour_proto_roundtrip T committee update_1 update_2 ≡ ok tt
      unfolding test_finalized_header_misbehaviour_proto_roundtrip
      finalized_roundtrip_passes =
          let (m, is_made, c, kind, _) =
            made T committee update_1 update_2 F (finalized_header update_1 update_2) in
          let (raw, written) = finalized_header_written T committee update_1 update_2 F m kind in
          let (bytes, encoded, decoded) = F.decode-encode_finalized_header raw in
          rw
            (
              is_made,
              written,
              encoded,
              decoded,
              finalized_header_try_from-into m c written,
              decided_self T.misbehaviour_dec m,
            )
            refl

      next_roundtrip_passes :
          test_next_sync_committee_misbehaviour_proto_roundtrip T committee update_1 update_2
          ≡ ok tt
      unfolding test_next_sync_committee_misbehaviour_proto_roundtrip
      next_roundtrip_passes =
          let (m, is_made, c, kind, _) =
            made T committee update_1 update_2 F (next_sync_committee update_1 update_2) in
          let (raw, written) = next_sync_committee_written T committee update_1 update_2 F m kind in
          let (bytes, encoded, decoded) = F.decode-encode_next_sync_committee raw in
          rw
            (
              is_made,
              written,
              encoded,
              decoded,
              next_sync_committee_try_from-into m c written,
              decided_self T.misbehaviour_dec m,
            )
            refl

      finalized_any_passes :
          test_misbehaviour_from_ibc_any_finalized_header T committee update_1 update_2 ≡ ok tt
      unfolding test_misbehaviour_from_ibc_any_finalized_header misbehaviour_from_ibc
      finalized_any_passes =
          let (m, is_made, c, kind, _) =
            made T committee update_1 update_2 F (finalized_header update_1 update_2) in
          let (raw, written) = finalized_header_written T committee update_1 update_2 F m kind in
          let (bytes, encoded, decoded) = F.decode-encode_finalized_header raw in
          rw
            (
              is_made,
              written,
              encoded,
              decoded,
              finalized_header_try_from-into m c written,
              decided_self T.misbehaviour_dec m,
            )
            refl

      next_any_passes :
          test_misbehaviour_from_ibc_any_next_sync_committee T committee update_1 update_2 ≡ ok tt
      unfolding test_misbehaviour_from_ibc_any_next_sync_committee misbehaviour_from_ibc
      next_any_passes =
          let (m, is_made, c, kind, _) =
            made T committee update_1 update_2 F (next_sync_committee update_1 update_2) in
          let (raw, written) = next_sync_committee_written T committee update_1 update_2 F m kind in
          let (bytes, encoded, decoded) = F.decode-encode_next_sync_committee raw in
          rw
            (
              is_made,
              written,
              encoded,
              decoded,
              next_sync_committee_try_from-into m c written,
              decided_self T.misbehaviour_dec m,
            )
            refl

      pub message_tests_pass : run_tests message_tests ≡ ok tt
      unfolding message_tests
      message_tests_pass =
          rw
            (
              unknown_message_passes, unknown_header_passes, header_passes, zero_block_passes,
              unknown_misbehaviour_passes, invalid_finalized_passes, invalid_next_passes,
              validate_passes, next_roundtrip_passes, finalized_roundtrip_passes,
              finalized_any_passes, next_any_passes,
            )
            refl
