-- ===== src/Header/Codec/Kinds.antt =====
-- light-client/src/header.rs: which decoder a type URL selects.
use ethereum_elc.Base.{◌≡◌, ◌≢◌, ◌↔◌, ok, err, panic, arith, eq_iff}
use ethereum_elc.Errors.{unknown_message_type}
use ethereum_elc.External.{Crates}
use ethereum_elc.External.Proto.{IbcAny}
use ethereum_elc.Header.{Header, header, misbehaviour, ethereum_header_type_url}
use ethereum_elc.Header.Codec.{header_from_ibc, client_message_from_ibc}
use ethereum_elc.Misbehaviour.{
  Misbehaviour, ethereum_finalized_header_misbehaviour_type_url,
  ethereum_next_sync_committee_misbehaviour_type_url,
}
use ethereum_elc.Misbehaviour.Codec.{
  misbehaviour_from_ibc, finalized_header_try_from, next_sync_committee_try_from,
}
use ethereum_elc.Services.{Services}

urls_distinct :
    (ethereum_header_type_url ≢ ethereum_finalized_header_misbehaviour_type_url)
    × (ethereum_header_type_url ≢ ethereum_next_sync_committee_misbehaviour_type_url)
urls_distinct = (λ p. cc ((eq_iff _ _).1 p), λ p. cc ((eq_iff _ _).1 p))

module _ ⦃C : Crates⦄ ⦃S : Services⦄ where
  pub header_from_ibc_no_panic : (raw : IbcAny) → header_from_ibc raw ≢ panic
  unfolding header_from_ibc
  header_from_ibc_no_panic raw = ground arith

  pub misbehaviour_from_ibc_no_panic : (raw : IbcAny) → misbehaviour_from_ibc raw ≢ panic
  unfolding misbehaviour_from_ibc finalized_header_try_from next_sync_committee_try_from
  misbehaviour_from_ibc_no_panic raw = ground arith

  pub client_message_from_ibc_no_panic : (raw : IbcAny) → client_message_from_ibc raw ≢ panic
  unfolding client_message_from_ibc
  client_message_from_ibc_no_panic raw =
      ground (arith, header_from_ibc_no_panic raw, misbehaviour_from_ibc_no_panic raw)

  pub client_message_from_ibc-header :
      (raw : IbcAny) (h : Header)
      → (client_message_from_ibc raw ≡ ok (header h)) ↔ (header_from_ibc raw ≡ ok h)
  unfolding client_message_from_ibc header_from_ibc
  client_message_from_ibc-header raw h = (λ e. ground arith, λ e. ground arith)

  -- A message is misbehaviour exactly if it decodes as misbehaviour: the type URLs are distinct.
  pub client_message_from_ibc_misbehaviour :
      (raw : IbcAny) (m : Misbehaviour)
      → (client_message_from_ibc raw ≡ ok (misbehaviour m)) ↔ (misbehaviour_from_ibc raw ≡ ok m)
  unfolding client_message_from_ibc misbehaviour_from_ibc
  client_message_from_ibc_misbehaviour raw m = (
    λ e. ground arith,
    λ e. ground (
      arith,
      eq_iff raw.type_url ethereum_header_type_url,
      eq_iff raw.type_url ethereum_finalized_header_misbehaviour_type_url,
      eq_iff raw.type_url ethereum_next_sync_committee_misbehaviour_type_url,
      urls_distinct,
    ),
  )

  -- The two decoders do not report an unknown message.
  header_from_ibc-known :
      (raw : IbcAny) → header_from_ibc raw ≢ err (unknown_message_type raw.type_url)
  unfolding header_from_ibc
  header_from_ibc-known raw = ground arith

  misbehaviour_from_ibc-known :
      (raw : IbcAny) → misbehaviour_from_ibc raw ≢ err (unknown_message_type raw.type_url)
  unfolding misbehaviour_from_ibc finalized_header_try_from next_sync_committee_try_from
  misbehaviour_from_ibc-known raw = ground arith

  -- A client message is refused as of an unknown type exactly if its type URL is none of the three
  -- that the client knows; no error of the decoders is mistaken for it.
  pub client_message_from_ibc_unknown :
      (raw : IbcAny)
      → (client_message_from_ibc raw ≡ err (unknown_message_type raw.type_url)) ↔ (
          (raw.type_url ≢ ethereum_header_type_url)
          × (raw.type_url ≢ ethereum_finalized_header_misbehaviour_type_url)
          × (raw.type_url ≢ ethereum_next_sync_committee_misbehaviour_type_url))
  unfolding client_message_from_ibc
  client_message_from_ibc_unknown raw = (
    λ e. (
      λ p. ground (arith, header_from_ibc-known raw, eq_iff raw.type_url ethereum_header_type_url),
      λ p. ground (
        arith,
        header_from_ibc-known raw,
        misbehaviour_from_ibc-known raw,
        eq_iff raw.type_url ethereum_finalized_header_misbehaviour_type_url,
      ),
      λ p. ground (
        arith,
        header_from_ibc-known raw,
        misbehaviour_from_ibc-known raw,
        eq_iff raw.type_url ethereum_next_sync_committee_misbehaviour_type_url,
      ),
    ),
    λ n. ground (
      arith,
      eq_iff raw.type_url ethereum_header_type_url,
      eq_iff raw.type_url ethereum_finalized_header_misbehaviour_type_url,
      eq_iff raw.type_url ethereum_next_sync_committee_misbehaviour_type_url,
    ),
  )
