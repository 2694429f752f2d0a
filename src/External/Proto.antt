-- ===== src/External/Proto.antt =====
-- Protobuf messages that other crates declare: the fields that the source reads and writes.
use ethereum_elc.Base.{ℕ, String, Option, List}
use ethereum_elc.Std.{ℤ}

-- `google.protobuf.Any`
pub record IbcAny : Type 0 where
  pub type_url : String
  pub value : List ℕ

-- `google.protobuf.Timestamp`
pub record ProtoTimestamp : Type 0 where
  pub seconds : ℤ  -- i64
  pub nanos : ℤ  -- i32

-- `ibc.core.client.v1.Height`
pub record ProtoHeight : Type 0 where
  pub revision_number : ℕ
  pub revision_height : ℕ

pub record ProtoFraction : Type 0 where
  pub numerator : ℕ
  pub denominator : ℕ

pub record RawForkSpec : Type 0 where
  pub finalized_root_gindex : ℕ
  pub current_sync_committee_gindex : ℕ
  pub next_sync_committee_gindex : ℕ
  pub execution_payload_gindex : ℕ
  pub execution_payload_state_root_gindex : ℕ
  pub execution_payload_block_number_gindex : ℕ
  pub execution_block_hash_gindex : ℕ

pub record RawFork : Type 0 where
  pub version : List ℕ
  pub epoch : ℕ
  pub spec : Option RawForkSpec

pub record ProtoForkParameters : Type 0 where
  pub genesis_fork_version : List ℕ
  pub forks : List RawFork
