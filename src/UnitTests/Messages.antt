-- ===== src/UnitTests/Messages.antt =====
-- light-client/src/header.rs and light-client/src/misbehaviour.rs, modules `tests`: the tests of messages.
-- The updates of a test fixture are any values.
pub mod Made
pub mod Pass
use ethereum_elc.Base.{
  ℕ, String, Bool, true, false, str_eq, List, [], ◌∷◌, Outcome, Result, ok, ◌>>=◌, ◌>>◌, expect,
}
use ethereum_elc.External.{Crates}
use ethereum_elc.External.Proto.{IbcAny}
use ethereum_elc.Errors.{
  Error, unknown_message_type, unknown_header_type, unknown_misbehaviour_type, zero_block_number,
}
use ethereum_elc.Raw.{RawFinalizedHeaderMisbehaviour, RawNextSyncCommitteeMisbehaviour}
use ethereum_elc.Header.{Header, validate_header}
use ethereum_elc.Header.Codec.{header_from_ibc, client_message_from_ibc}
use ethereum_elc.Misbehaviour.{
  Misbehaviour, MisbehaviourData, finalized_header, next_sync_committee, validate_misbehaviour,
  ethereum_finalized_header_misbehaviour_type_url,
  ethereum_next_sync_committee_misbehaviour_type_url,
}
use ethereum_elc.Misbehaviour.Codec.{
  finalized_header_into, finalized_header_try_from, next_sync_committee_into,
  next_sync_committee_try_from, misbehaviour_from_ibc,
}
use ethereum_elc.Services.{Services}
use ethereum_elc.UnitTests.{
  TestRun, assert, assert_eq, assert_ok, assert_err, unwrap_ok, unwrap_err,
}

module _ ⦃C : Crates⦄ where
  open C use {
    LcHeight, SyncCommittee, TrustedSyncCommittee, ConsensusUpdate, ExecutionUpdate, AccountUpdate,
    EncodeError, client_id_from_str, lc_height_new,
  }

  -- What the tests of messages use of other crates: struct literals, the encoder and derived
  -- equality.
  pub record MessageCrates : Type 0 where
    pub trusted_sync_committee_of :
        LcHeight → SyncCommittee → (is_next : Bool) → TrustedSyncCommittee
    -- `ExecutionUpdateInfo { block_number, ..Default::default() }`
    pub execution_update_at : (block_number : ℕ) → ExecutionUpdate
    pub account_update_default : AccountUpdate
    pub encode_finalized_header : RawFinalizedHeaderMisbehaviour → Result EncodeError (List ℕ)
    pub encode_next_sync_committee : RawNextSyncCommitteeMisbehaviour → Result EncodeError (List ℕ)
    pub misbehaviour_dec : Discrete Misbehaviour

  -- The patterns of `matches!`.
  abbrev pub is_unknown_message_type : String → Error → Bool
  is_unknown_message_type expected (unknown_message_type url) = str_eq url expected
  is_unknown_message_type expected _ = false

  abbrev pub is_unknown_header_type : String → Error → Bool
  is_unknown_header_type expected (unknown_header_type url) = str_eq url expected
  is_unknown_header_type expected _ = false

  abbrev pub is_unknown_misbehaviour_type : String → Error → Bool
  is_unknown_misbehaviour_type expected (unknown_misbehaviour_type url) = str_eq url expected
  is_unknown_misbehaviour_type expected _ = false

  abbrev pub is_zero_block_number : Error → Bool
  is_zero_block_number zero_block_number = true
  is_zero_block_number _ = false

module _ ⦃C : Crates⦄ ⦃S : Services⦄ where
  unfoldable pub test_client_message_from_any_unknown_type : TestRun (Unit {0})
  test_client_message_from_any_unknown_type = do
    let result = client_message_from_ibc (record { type_url = "/unknown.type"; value = [] })
    assert_err result
    e ← unwrap_err result
    assert (is_unknown_message_type "/unknown.type" e)

  unfoldable pub test_header_from_any_unknown_type : TestRun (Unit {0})
  test_header_from_any_unknown_type = do
    let result = header_from_ibc (record { type_url = "/unknown.header"; value = [] })
    assert_err result
    e ← unwrap_err result
    assert (is_unknown_header_type "/unknown.header" e)

  unfoldable pub test_misbehaviour_from_any_unknown_type : TestRun (Unit {0})
  test_misbehaviour_from_any_unknown_type = do
    let result = misbehaviour_from_ibc (record { type_url = "/unknown.misbehaviour"; value = [] })
    assert_err result
    e ← unwrap_err result
    assert (is_unknown_misbehaviour_type "/unknown.misbehaviour" e)

  unfoldable pub test_misbehaviour_from_any_invalid_finalized_header : TestRun (Unit {0})
  test_misbehaviour_from_any_invalid_finalized_header = assert_err (
      misbehaviour_from_ibc (record {
        type_url = ethereum_finalized_header_misbehaviour_type_url;
        value = 0x00 ∷ 0x01 ∷ 0x02 ∷ [];
      }))

  unfoldable pub test_misbehaviour_from_any_invalid_next_sync_committee : TestRun (Unit {0})
  test_misbehaviour_from_any_invalid_next_sync_committee = assert_err (
      misbehaviour_from_ibc (record {
        type_url = ethereum_next_sync_committee_misbehaviour_type_url;
        value = 0x00 ∷ 0x01 ∷ 0x02 ∷ [];
      }))

  module _ (T : MessageCrates) (committee : C.SyncCommittee)
      (update_1 update_2 : C.ConsensusUpdate) where
    -- `fixture.trusted_from_current(Height::new(0, 1), true)`
    unfoldable pub test_header : ℕ → Header
    test_header block_number = record {
      trusted_sync_committee = T.trusted_sync_committee_of (C.lc_height_new 0 1) committee true;
      consensus_update = update_1;
      execution_update = T.execution_update_at block_number;
      account_update = T.account_update_default;
    }

    unfoldable pub test_header_validate_success : TestRun (Unit {0})
    test_header_validate_success = assert_ok (validate_header (test_header 100))

    unfoldable pub test_header_validate_zero_block_number : TestRun (Unit {0})
    test_header_validate_zero_block_number = do
      let result = validate_header (test_header 0)
      assert_err result
      e ← unwrap_err result
      assert (is_zero_block_number e)

    -- The misbehaviour of the tests, with evidence of either kind.
    unfoldable pub test_misbehaviour : MisbehaviourData → TestRun Misbehaviour
    test_misbehaviour evidence = do
      client_id ← expect (C.client_id_from_str "ethereum-0")
      ok (record {
        client_id = client_id;
        trusted_sync_committee = T.trusted_sync_committee_of (C.lc_height_new 0 1) committee false;
        evidence = evidence;
      })

    unfoldable pub test_misbehaviour_validate_success : TestRun (Unit {0})
    test_misbehaviour_validate_success = do
      misbehaviour ← test_misbehaviour (finalized_header update_1 update_2)
      assert_ok (validate_misbehaviour misbehaviour)

    unfoldable pub test_next_sync_committee_misbehaviour_proto_roundtrip : TestRun (Unit {0})
    test_next_sync_committee_misbehaviour_proto_roundtrip = do
      misbehaviour ← test_misbehaviour (next_sync_committee update_1 update_2)
      raw ← unwrap_ok (next_sync_committee_into misbehaviour)
      buf ← expect (T.encode_next_sync_committee raw)
      decoded_raw ← expect (S.decode_next_sync_committee buf)
      decoded ← unwrap_ok (next_sync_committee_try_from decoded_raw)
      assert_eq T.misbehaviour_dec misbehaviour decoded

    unfoldable pub test_finalized_header_misbehaviour_proto_roundtrip : TestRun (Unit {0})
    test_finalized_header_misbehaviour_proto_roundtrip = do
      misbehaviour ← test_misbehaviour (finalized_header update_1 update_2)
      raw ← unwrap_ok (finalized_header_into misbehaviour)
      buf ← expect (T.encode_finalized_header raw)
      decoded_raw ← expect (S.decode_finalized_header buf)
      decoded ← unwrap_ok (finalized_header_try_from decoded_raw)
      assert_eq T.misbehaviour_dec misbehaviour decoded

    unfoldable pub test_misbehaviour_from_ibc_any_finalized_header : TestRun (Unit {0})
    test_misbehaviour_from_ibc_any_finalized_header = do
      misbehaviour ← test_misbehaviour (finalized_header update_1 update_2)
      raw ← unwrap_ok (finalized_header_into misbehaviour)
      buf ← expect (T.encode_finalized_header raw)
      let any : IbcAny = record {
        type_url = ethereum_finalized_header_misbehaviour_type_url;
        value = buf;
      }
      decoded ← unwrap_ok (misbehaviour_from_ibc any)
      assert_eq T.misbehaviour_dec misbehaviour decoded

    unfoldable pub test_misbehaviour_from_ibc_any_next_sync_committee : TestRun (Unit {0})
    test_misbehaviour_from_ibc_any_next_sync_committee = do
      misbehaviour ← test_misbehaviour (next_sync_committee update_1 update_2)
      raw ← unwrap_ok (next_sync_committee_into misbehaviour)
      buf ← expect (T.encode_next_sync_committee raw)
      let any : IbcAny = record {
        type_url = ethereum_next_sync_committee_misbehaviour_type_url;
        value = buf;
      }
      decoded ← unwrap_ok (misbehaviour_from_ibc any)
      assert_eq T.misbehaviour_dec misbehaviour decoded
