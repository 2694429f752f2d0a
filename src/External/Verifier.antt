-- ===== src/External/Verifier.antt =====
-- `ethereum_light_client_verifier`, less its verifier of updates, which is generic in the client's
-- consensus state and stands with the other generic functions in `Services`.
use ethereum_elc.Base.{ℕ, Result}
use ethereum_elc.External.Consensus.{EthereumConsensus}

pub record LightClientVerifier (K : EthereumConsensus) : Type 1 where
  pub VerifierError : Type 0
  pub Fraction : Type 0
  pub fraction_dec : Discrete Fraction
  pub fraction_default : Fraction
  pub fraction_new : ℕ → ℕ → Result VerifierError Fraction
  pub fraction_numerator : Fraction → ℕ
  pub fraction_denominator : Fraction → ℕ
  -- `LightClientContext`, and its `new` with the arguments in the crate's order.
  pub Context : Type 0
  pub context_new :
      K.ForkParameters
      → (seconds_per_slot slots_per_epoch epochs_per_sync_committee_period genesis_time : ℕ)
      → K.H256
      → (min_sync_committee_participants : ℕ) → Fraction
      → (current_timestamp : ℕ) → Context
  -- `compute_sync_committee_period_at_slot` of `ethereum_consensus`, at this context.
  pub compute_sync_committee_period_at_slot : Context → ℕ → ℕ
  pub ConsensusVerifier : Type 0
  pub consensus_verifier_default : ConsensusVerifier
  pub ExecutionVerifier : Type 0
  pub execution_verifier_default : ExecutionVerifier
