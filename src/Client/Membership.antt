-- ===== src/Client/Membership.antt =====
-- light-client/src/client.rs: `verify_membership` and `verify_non_membership`.
pub mod Verified
pub mod Refused
use ethereum_elc.Base.{
  ℕ, String, none, some, List, Outcome, ok, try_with, map_err, reject_if, ◌>>=◌, ◌>>◌,
}
use ethereum_elc.External.{Crates}
use ethereum_elc.Errors.{client_frozen, ethereum_light_client_types}
use ethereum_elc.Misc.{to_lc_types_height}
use ethereum_elc.ConsensusState.{ConsensusState}
use ethereum_elc.ConsensusState.Codec.{consensus_state_from_any}
use ethereum_elc.ClientState.{ClientState, is_frozen, latest_height, canonicalize}
use ethereum_elc.ClientState.Codec.{client_state_from_any}
use ethereum_elc.StateId.{gen_state_id}
use ethereum_elc.Services.{
  Services, HostClientReader, EthClientState, EthConsensusState, VerifyMembershipResult,
  VerifyNonMembershipResult,
}
use ethereum_elc.Client.{own, from_host, read_states}

module _ ⦃C : Crates⦄ where
  -- `impl EthClientState for ClientState`
  abbrev pub client_state_impl : EthClientState ClientState
  client_state_impl = record {
    latest_height = latest_height;
    ibc_commitments_slot = λ state. state.ibc_commitments_slot;
    canonicalize = canonicalize;
  }

  -- `impl EthConsensusState for ConsensusState`
  abbrev pub consensus_state_impl : EthConsensusState ConsensusState
  consensus_state_impl = record { storage_root = λ state. state.storage_root }

module _ ⦃C : Crates⦄ ⦃S : Services⦄ where
  open C use {ClientId, Height, LcError, membership_message_new}

  unfoldable pub verify_membership :
      HostClientReader
      → ClientId
      → (prefix : List ℕ) → (path : String) → (value : List ℕ) → Height
      → (proof : List ℕ) → Outcome LcError VerifyMembershipResult
  verify_membership ctx client_id prefix path value proof_height proof = do
    (client_state, consensus_state) ← read_states ctx client_id proof_height
    committed ← own (
        try_with ethereum_light_client_types (
          S.verify_membership client_state_impl consensus_state_impl client_state consensus_state
            path value (to_lc_types_height proof_height) proof client_state.execution_verifier))
    state_id ← own (gen_state_id client_state consensus_state)
    ok (record {
      message = membership_message_new prefix path (some committed) proof_height state_id;
    })

  unfoldable pub verify_non_membership :
      HostClientReader
      → ClientId
      → (prefix : List ℕ) → (path : String) → Height
      → (proof : List ℕ) → Outcome LcError VerifyNonMembershipResult
  verify_non_membership ctx client_id prefix path proof_height proof = do
    (client_state, consensus_state) ← read_states ctx client_id proof_height
    own (
        try_with ethereum_light_client_types (
          S.verify_non_membership client_state_impl consensus_state_impl client_state
            consensus_state path (to_lc_types_height proof_height) proof
            client_state.execution_verifier))
    state_id ← own (gen_state_id client_state consensus_state)
    ok (record { message = membership_message_new prefix path none proof_height state_id })
