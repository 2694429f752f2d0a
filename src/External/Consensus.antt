-- ===== src/External/Consensus.antt =====
-- `ethereum_consensus`. Its `U64`, `Slot` and `Epoch` wrap a `u64` and are numbers here; `Root` is
-- `H256`. A derived `PartialEq` is a decision of equality.
use ethereum_elc.Base.{ℕ, String, Option, Result, List}

pub record EthereumConsensus : Type 1 where
  pub H256 : Type 0
  pub h256_dec : Discrete H256
  pub h256_default : H256
  -- `H256::from_slice`, where `none` is its panic.
  pub h256_from_slice : List ℕ → Option H256
  pub h256_as_bytes : H256 → List ℕ
  pub Address : Type 0
  pub AddressError : Type 0
  pub address_dec : Discrete Address
  pub address_default : Address
  pub address_try_from : List ℕ → Result AddressError Address
  pub address_bytes : Address → List ℕ
  -- `format!("{:?}", e)`
  pub address_error_debug : AddressError → String
  -- The errors of the crate, those of `PublicKey::try_from` among them.
  pub ConsensusError : Type 0
  pub PublicKey : Type 0
  pub public_key_dec : Discrete PublicKey
  pub public_key_default : PublicKey
  pub public_key_try_from : List ℕ → Result ConsensusError PublicKey
  pub public_key_to_vec : PublicKey → List ℕ
  pub Version : Type 0
  pub version_bytes : Version → List ℕ
  pub ForkSpec : Type 0
  pub finalized_root_gindex : ForkSpec → ℕ
  pub current_sync_committee_gindex : ForkSpec → ℕ
  pub next_sync_committee_gindex : ForkSpec → ℕ
  pub execution_payload_gindex : ForkSpec → ℕ
  pub execution_payload_state_root_gindex : ForkSpec → ℕ
  pub execution_payload_block_number_gindex : ForkSpec → ℕ
  pub execution_block_hash_gindex : ForkSpec → ℕ
  pub ForkParameter : Type 0
  pub fork_version : ForkParameter → Version
  pub fork_epoch : ForkParameter → ℕ
  pub fork_spec : ForkParameter → ForkSpec
  pub ForkParameters : Type 0
  pub fork_parameters_dec : Discrete ForkParameters
  pub fork_parameters_default : ForkParameters
  pub genesis_version : ForkParameters → Version
  pub forks : ForkParameters → List ForkParameter
  pub bellatrix_index : ℕ
