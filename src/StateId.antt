-- ===== src/StateId.antt =====
-- light-client/src/state.rs: the identifier of a pair of states.
pub mod Identity
pub mod Collision
use ethereum_elc.Base.{Outcome, try_with, ◌>>=◌}
use ethereum_elc.External.{Crates}
use ethereum_elc.Errors.{Error, commitment}
use ethereum_elc.ConsensusState.{ConsensusState}
use ethereum_elc.ConsensusState.Codec.{consensus_state_to_any}
use ethereum_elc.ClientState.{ClientState, canonicalize}
use ethereum_elc.ClientState.Codec.{client_state_to_any}
use ethereum_elc.Services.{Services}

module _ ⦃C : Crates⦄ ⦃S : Services⦄ where
  open C use {StateId, gen_state_id_from_any}

  unfoldable pub gen_state_id : ClientState → ConsensusState → Outcome Error StateId
  gen_state_id client_state consensus_state = do
    any_client_state ← client_state_to_any (canonicalize client_state)
    any_consensus_state ← consensus_state_to_any consensus_state
    try_with commitment (gen_state_id_from_any any_client_state any_consensus_state)
