-- ===== src/Laws/Forks.antt =====
-- The fork parameters of `ethereum_light_client_proto` and those of `ethereum_consensus`: when a message
-- has the fields of a value.
use mathlib.Core.List.{Forall₂}
use ethereum_elc.Base.{◌≡◌, some}
use ethereum_elc.External.{Crates}
use ethereum_elc.External.Proto.{ProtoForkParameters, RawFork, RawForkSpec}

module _ ⦃C : Crates⦄ where
  open C use {
    ForkParameter, ForkParameters, ForkSpec, version_bytes, fork_version, fork_epoch, fork_spec,
    genesis_version, forks, finalized_root_gindex, current_sync_committee_gindex,
    next_sync_committee_gindex, execution_payload_gindex, execution_payload_state_root_gindex,
    execution_payload_block_number_gindex, execution_block_hash_gindex,
  }

  pub record HasSpec (raw : RawForkSpec) (spec : ForkSpec) : Type 0 where
    pub finalized_root : raw.finalized_root_gindex ≡ finalized_root_gindex spec
    pub current_committee : raw.current_sync_committee_gindex ≡ current_sync_committee_gindex spec
    pub next_committee : raw.next_sync_committee_gindex ≡ next_sync_committee_gindex spec
    pub payload : raw.execution_payload_gindex ≡ execution_payload_gindex spec
    pub payload_state_root :
        raw.execution_payload_state_root_gindex ≡ execution_payload_state_root_gindex spec
    pub payload_block_number :
        raw.execution_payload_block_number_gindex ≡ execution_payload_block_number_gindex spec
    pub block_hash : raw.execution_block_hash_gindex ≡ execution_block_hash_gindex spec

  pub record HasFork (raw : RawFork) (fork : ForkParameter) : Type 0 where
    pub version : raw.version ≡ version_bytes (fork_version fork)
    pub epoch : raw.epoch ≡ fork_epoch fork
    pub raw_spec : RawForkSpec
    pub spec_present : raw.spec ≡ some raw_spec
    pub spec : HasSpec raw_spec (fork_spec fork)

  pub record HasForkParameters (raw : ProtoForkParameters) (f : ForkParameters) : Type 0 where
    pub genesis : raw.genesis_fork_version ≡ version_bytes (genesis_version f)
    pub all_forks : Forall₂ HasFork raw.forks (forks f)
