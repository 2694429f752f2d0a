-- ===== src/Client/Membership/Refused.antt =====
-- Why a proof of membership or of absence is refused: every error of `verify_membership` and
-- `verify_non_membership` of light-client/src/client.rs.
use ethereum_elc.Base.{ℕ, String, ◌≡◌, List, ok, err, failure, arith}
use ethereum_elc.External.{Crates}
use ethereum_elc.Errors.{Error, ethereum_light_client_types}
use ethereum_elc.Misc.{to_lc_types_height}
use ethereum_elc.ConsensusState.{ConsensusState}
use ethereum_elc.ClientState.{ClientState}
use ethereum_elc.StateId.{gen_state_id}
use ethereum_elc.Services.{Services, HostClientReader}
use ethereum_elc.Client.{read_states}
use ethereum_elc.Client.Read.{StatesRead, read_states-StatesRead}
use ethereum_elc.Client.Refused.{StatesRefused, read_states-StatesRefused}
use ethereum_elc.Client.Membership.{
  client_state_impl, consensus_state_impl, verify_membership, verify_non_membership,
}

module _ ⦃C : Crates⦄ ⦃S : Services⦄ where
  open C use {ClientId, Height, LcError, LcTypesError}

  -- `refused s c e` says that the proof is refused for the states `s` and `c` with the error `e`.
  pub data ProofRefused (ctx : HostClientReader) (client_id : ClientId) (proof_height : Height)
      (refused : ClientState → ConsensusState → LcTypesError → Type 0) : LcError → Type 0 where
    states :
        (e : LcError)
        → StatesRefused ctx client_id proof_height e
        → ProofRefused ctx client_id proof_height refused e
    proof_invalid :
        (s : ClientState) (c : ConsensusState) (e : LcTypesError)
        → StatesRead ctx client_id proof_height s c
        → refused s c e
        → ProofRefused ctx client_id proof_height refused
            (S.specific_error (ethereum_light_client_types e))
    id_unknown :
        (s : ClientState) (c : ConsensusState) (e : Error)
        → StatesRead ctx client_id proof_height s c
        → gen_state_id s c ≡ err e
        → ProofRefused ctx client_id proof_height refused (S.specific_error e)

  -- The steps at which a proof fails.
  module _ (ctx : HostClientReader) (client_id : ClientId) (proof_height : Height)
      (refused : ClientState → ConsensusState → LcTypesError → Type 0) where
    unread :
        (e : LcError)
        → read_states ctx client_id proof_height ≡ err e
        → ProofRefused ctx client_id proof_height refused e
    unread e r = states e (read_states-StatesRefused _ _ _ e r)

    unproved :
        (x : ClientState × ConsensusState) (e : LcTypesError)
        → read_states ctx client_id proof_height ≡ ok x
        → refused x.0 x.1 e
        → ProofRefused ctx client_id proof_height refused
            (S.specific_error (ethereum_light_client_types e))
    unproved x e r f = proof_invalid x.0 x.1 e ((read_states-StatesRead _ _ _ _ _).0 r) f

    unidentified :
        (x : ClientState × ConsensusState) (e : Error)
        → read_states ctx client_id proof_height ≡ ok x
        → gen_state_id x.0 x.1 ≡ err e
        → ProofRefused ctx client_id proof_height refused (S.specific_error e)
    unidentified x e r f = id_unknown x.0 x.1 e ((read_states-StatesRead _ _ _ _ _).0 r) f

  -- Every error of verify_membership has one of the listed causes, with the error that belongs to
  -- it: the states at the proof's height are missing, do not read or are frozen, the storage proof
  -- is refused for the states that were read, or their pair cannot be identified.
  pub verify_membership-ProofRefused :
      (ctx : HostClientReader) (client_id : ClientId) (prefix : List ℕ) (path : String)
      (value : List ℕ) (proof_height : Height) (proof : List ℕ) (e : LcError)
      → verify_membership ctx client_id prefix path value proof_height proof ≡ err e
      → ProofRefused ctx client_id proof_height
          (λ s c f.
            S.verify_membership client_state_impl consensus_state_impl s c path value
              (to_lc_types_height proof_height)
              proof
              s.execution_verifier
            ≡ failure f)
          e
  unfolding verify_membership
  verify_membership-ProofRefused ctx client_id prefix path value proof_height proof e h =
      grind (arith, unread, unproved, unidentified)

  -- Every error of verify_non_membership has one of the listed causes, with the error that belongs
  -- to it: the states at the proof's height are missing, do not read or are frozen, the proof of
  -- absence is refused for the states that were read, or their pair cannot be identified.
  pub verify_non_membership-ProofRefused :
      (ctx : HostClientReader) (client_id : ClientId) (prefix : List ℕ) (path : String)
      (proof_height : Height) (proof : List ℕ) (e : LcError)
      → verify_non_membership ctx client_id prefix path proof_height proof ≡ err e
      → ProofRefused ctx client_id proof_height
          (λ s c f.
            S.verify_non_membership client_state_impl consensus_state_impl s c path
              (to_lc_types_height proof_height)
              proof
              s.execution_verifier
            ≡ failure f)
          e
  unfolding verify_non_membership
  verify_non_membership-ProofRefused ctx client_id prefix path proof_height proof e h =
      grind (arith, unread, unproved, unidentified)
