-- ===== src/Client/Membership/Verified.antt =====
-- light-client/src/client.rs: when a proof of membership or of absence is accepted, and what the call
-- returns.
use ethereum_elc.Base.{
  ℕ, String, ◌≡◌, ◌↔◌, none, some, List, ok, success, arith, >>=-eq-ok, map_err-bind-eq-ok,
  try_with,
}
use ethereum_elc.External.{Crates}
use ethereum_elc.Errors.{ethereum_light_client_types}
use ethereum_elc.Misc.{to_lc_types_height}
use ethereum_elc.ConsensusState.{ConsensusState}
use ethereum_elc.ClientState.{ClientState}
use ethereum_elc.StateId.{gen_state_id}
use ethereum_elc.Services.{
  Services, HostClientReader, VerifyMembershipResult, VerifyNonMembershipResult,
}
use ethereum_elc.Client.{read_states}
use ethereum_elc.Client.Membership.{
  client_state_impl, consensus_state_impl, verify_membership, verify_non_membership,
}
use ethereum_elc.Client.Read.{StatesRead, read_states-StatesRead}

module _ ⦃C : Crates⦄ ⦃S : Services⦄ where
  open C use {ClientId, Height, StateId, MembershipValue, membership_message_new}

  -- The states at the proof's height are readable, the client is not frozen, and the storage proof
  -- is accepted for this path and value; the message carries what the proof commits to and the
  -- identifier of the states.
  pub record MembershipVerified (ctx : HostClientReader) (client_id : ClientId) (prefix : List ℕ)
      (path : String) (value : List ℕ) (proof_height : Height) (proof : List ℕ)
      (r : VerifyMembershipResult) : Type 0 where
    pub client : ClientState
    pub consensus : ConsensusState
    pub committed : MembershipValue
    pub state_id : StateId
    pub states : StatesRead ctx client_id proof_height client consensus
    pub verified :
        S.verify_membership client_state_impl consensus_state_impl client consensus path value
          (to_lc_types_height proof_height)
          proof
          client.execution_verifier
        ≡ success committed
    pub id_known : gen_state_id client consensus ≡ ok state_id
    pub message_known :
        r.message ≡ membership_message_new prefix path (some committed) proof_height state_id

  pub record NonMembershipVerified (ctx : HostClientReader) (client_id : ClientId) (prefix : List ℕ)
      (path : String) (proof_height : Height) (proof : List ℕ) (r : VerifyNonMembershipResult)
      : Type 0 where
    pub client : ClientState
    pub consensus : ConsensusState
    pub state_id : StateId
    pub states : StatesRead ctx client_id proof_height client consensus
    pub verified :
        S.verify_non_membership client_state_impl consensus_state_impl client consensus path
          (to_lc_types_height proof_height)
          proof
          client.execution_verifier
        ≡ success tt
    pub id_known : gen_state_id client consensus ≡ ok state_id
    pub message_known : r.message ≡ membership_message_new prefix path none proof_height state_id

  -- verify_membership returns a result exactly if the states at the proof's height read and the
  -- client is not frozen, the storage proof is accepted for these states, path and value, and the
  -- pair can be identified; the message then carries the value that the proof commits to and the
  -- identifier.
  pub verify_membership-MembershipVerified :
      (ctx : HostClientReader) (client_id : ClientId) (prefix : List ℕ) (path : String)
      (value : List ℕ) (proof_height : Height) (proof : List ℕ) (r : VerifyMembershipResult)
      → (verify_membership ctx client_id prefix path value proof_height proof ≡ ok r)
        ↔ MembershipVerified ctx client_id prefix path value proof_height proof r
  unfolding verify_membership
  verify_membership-MembershipVerified ctx client_id prefix path value proof_height proof r = (
    λ h.
        let ((client, consensus), read, h) =
          >>=-eq-ok (read_states ctx client_id proof_height) _ h in
        let (committed, verified, h) =
          map_err-bind-eq-ok _
            (try_with ethereum_light_client_types (
              S.verify_membership client_state_impl consensus_state_impl client consensus path value
                (to_lc_types_height proof_height) proof client.execution_verifier))
            _ h in
        let (state_id, id_known, h) = map_err-bind-eq-ok _ (gen_state_id client consensus) _ h in
        record {
          client = client;
          consensus = consensus;
          committed = committed;
          state_id = state_id;
          states = (read_states-StatesRead _ _ _ _ _).0 read;
          verified = ground arith;
          id_known = id_known;
          message_known = ground arith;
        },
    λ v. ground (arith, (read_states-StatesRead _ _ _ _ _).1 v.states),
  )

  -- verify_non_membership returns a result exactly if the states at the proof's height read and
  -- the client is not frozen, the proof of absence is accepted for these states and path, and the
  -- pair can be identified; the message then carries no value, and the identifier.
  pub verify_non_membership-NonMembershipVerified :
      (ctx : HostClientReader) (client_id : ClientId) (prefix : List ℕ) (path : String)
      (proof_height : Height) (proof : List ℕ) (r : VerifyNonMembershipResult)
      → (verify_non_membership ctx client_id prefix path proof_height proof ≡ ok r)
        ↔ NonMembershipVerified ctx client_id prefix path proof_height proof r
  unfolding verify_non_membership
  verify_non_membership-NonMembershipVerified ctx client_id prefix path proof_height proof r = (
    λ h.
        let ((client, consensus), read, h) =
          >>=-eq-ok (read_states ctx client_id proof_height) _ h in
        let (_, verified, h) =
          map_err-bind-eq-ok _
            (try_with ethereum_light_client_types (
              S.verify_non_membership client_state_impl consensus_state_impl client consensus path
                (to_lc_types_height proof_height) proof client.execution_verifier))
            _ h in
        let (state_id, id_known, h) = map_err-bind-eq-ok _ (gen_state_id client consensus) _ h in
        record {
          client = client;
          consensus = consensus;
          state_id = state_id;
          states = (read_states-StatesRead _ _ _ _ _).0 read;
          verified = ground arith;
          id_known = id_known;
          message_known = ground arith;
        },
    λ v. ground (arith, (read_states-StatesRead _ _ _ _ _).1 v.states),
  )
