-- ===== src/Chain/Written.antt =====
-- light-client/src/state.rs, client_state.rs and consensus_state.rs: every state can be written, and
-- every pair of states identified, where the encoder and the hash are total.
use ethereum_elc.Base.{ℕ, ◌≡◌, ok, success, List, arith}
use ethereum_elc.External.{Crates}
use ethereum_elc.Raw.{RawClientState, RawConsensusState}
use ethereum_elc.ConsensusState.{ConsensusState}
use ethereum_elc.ConsensusState.Codec.{
  consensus_state_into, consensus_state_to_any, ethereum_consensus_state_type_url,
}
use ethereum_elc.ClientState.{ClientState, canonicalize, ethereum_client_state_type_url}
use ethereum_elc.ClientState.Codec.{client_state_into, client_state_to_any}
use ethereum_elc.StateId.{gen_state_id}
use ethereum_elc.Services.{Services}

module _ ⦃C : Crates⦄ ⦃S : Services⦄ where
  open C use {Any, StateId, gen_state_id_from_any, any_from}

  -- `prost` writes every message to a buffer that grows, and every two states can be hashed.
  pub record IsWritable : Type 0 where
    pub encode_client_state_total :
        (m : RawClientState) → (b : List ℕ) × (S.encode_client_state m ≡ success b)
    pub encode_consensus_state_total :
        (m : RawConsensusState) → (b : List ℕ) × (S.encode_consensus_state m ≡ success b)
    pub gen_state_id_total : (a b : Any) → (i : StateId) × (gen_state_id_from_any a b ≡ success i)

  module _ (W : IsWritable) where
    pub client_state_to_any_total : (s : ClientState) → (a : Any) × (client_state_to_any s ≡ ok a)
    unfolding client_state_to_any
    client_state_to_any_total s =
        let (b, e) = W.encode_client_state_total (client_state_into s) in
        (any_from (record { type_url = ethereum_client_state_type_url; value = b }), ground arith)

    pub consensus_state_to_any_total :
        (s : ConsensusState) → (a : Any) × (consensus_state_to_any s ≡ ok a)
    unfolding consensus_state_to_any
    consensus_state_to_any_total s =
        let (b, e) = W.encode_consensus_state_total (consensus_state_into s) in
        (
          any_from (record { type_url = ethereum_consensus_state_type_url; value = b }),
          ground arith,
        )

    pub gen_state_id_writes :
        (s : ClientState) (t : ConsensusState) → (i : StateId) × (gen_state_id s t ≡ ok i)
    unfolding gen_state_id
    gen_state_id_writes s t =
        let (a, written) = client_state_to_any_total (canonicalize s) in
        let (b, written') = consensus_state_to_any_total t in
        let (i, hashed) = W.gen_state_id_total a b in (i, rw (written, written', hashed))
