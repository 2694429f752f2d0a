-- ===== src/UnitTests/Fixtures.antt =====
-- What the unit tests use of other crates besides what the program uses, and what they rely on.
use ethereum_elc.Base.{ℕ, ◌*◌, ◌<◌, ◌≡◌, ◌≢◌, Result, success, some, List, [], ◌∷◌, All}
use ethereum_elc.Std.{Duration, i64_bound}
use ethereum_elc.External.{Crates}
use ethereum_elc.ConsensusState.Codec.{nanos_per_second}
use ethereum_elc.External.Proto.{ProtoForkParameters}
use ethereum_elc.UnitTests.{replicate}

module _ ⦃C : Crates⦄ where
  open C use {
    H256, Address, PublicKey, Fraction, ForkParameters, ForkParameter, ForkSpec, Version, Height,
    Time, ConsensusVerifier, ExecutionVerifier, h256_from_slice, h256_default, address_default,
    public_key_default, public_key_try_from, fraction_default, fraction_new, fork_epoch, forks,
    fork_parameters_default, bellatrix_index, duration_try_from, duration_into, lc_height_new,
    lc_revision_number, lc_revision_height, convert_proto_to_fork_parameters, time_from_nanos,
    as_unix_timestamp_nanos,
  }

  pub record TestCrates : Type 1 where
    -- `Version([..])` and `Address([..])`
    pub version : List ℕ → Version
    pub address : List ℕ → Address
    pub fork_parameter_new : Version → ℕ → ForkSpec → ForkParameter
    pub ForkError : Type 0
    pub fork_parameters_new : Version → List ForkParameter → Result ForkError ForkParameters
    pub altair_fork_spec : ForkSpec
    pub bellatrix_fork_spec : ForkSpec
    pub capella_fork_spec : ForkSpec
    pub deneb_fork_spec : ForkSpec
    -- `ethereum_consensus::preset::minimal::PRESET`
    pub preset_seconds_per_slot : ℕ
    pub preset_slots_per_epoch : ℕ
    pub preset_epochs_per_sync_committee_period : ℕ
    -- Derived equality.
    pub height_dec : Discrete Height
    pub consensus_verifier_dec : Discrete ConsensusVerifier
    pub execution_verifier_dec : Discrete ExecutionVerifier

  -- `hex!("ff77..")`
  abbrev pub test_address_bytes : List ℕ
  test_address_bytes =
      0xff ∷ 0x77 ∷ 0xD9 ∷ 0x0D ∷ 0x6a ∷ 0xA1 ∷ 0x2d ∷ 0xb3 ∷ 0x3d ∷ 0x3B ∷ 0xa5 ∷ 0x0A ∷ 0x34
      ∷ 0xfB ∷ 0x25 ∷ 0x40 ∷ 0x1f ∷ 0x6e ∷ 0x4c ∷ 0x4F ∷ []

  -- `hex!("a99a..")`, a BLS public key of 48 bytes.
  abbrev pub test_pubkey_bytes : List ℕ
  test_pubkey_bytes =
      0xa9 ∷ 0x9a ∷ 0x76 ∷ 0xed ∷ 0x77 ∷ 0x96 ∷ 0xf7 ∷ 0xbe ∷ 0x22 ∷ 0xd5 ∷ 0xb7 ∷ 0xe8 ∷ 0x5d
      ∷ 0xee ∷ 0xb7 ∷ 0xc5 ∷ 0x67 ∷ 0x7e ∷ 0x88 ∷ 0xe5 ∷ 0x11 ∷ 0xe0 ∷ 0xb3 ∷ 0x37 ∷ 0x61 ∷ 0x8f
      ∷ 0x8c ∷ 0x4e ∷ 0xb6 ∷ 0x13 ∷ 0x49 ∷ 0xb4 ∷ 0xbf ∷ 0x2d ∷ 0x15 ∷ 0x3f ∷ 0x64 ∷ 0x9f ∷ 0x7b
      ∷ 0x53 ∷ 0x35 ∷ 0x9f ∷ 0xe8 ∷ 0xb9 ∷ 0x4a ∷ 0x38 ∷ 0xe4 ∷ 0x4c ∷ []

  pub record IsFixture (T : TestCrates) : Type 0 where
    -- A hash that is not all zeros is not the default.
    pub ones-ne-default : (h : H256) → h256_from_slice (replicate 32 1) ≡ some h → h ≢ h256_default
    pub test_address-ne-default : T.address test_address_bytes ≢ address_default
    -- Forks that all begin at epoch 0 stand in order. They are kept, and are read from some message.
    pub fork_parameters_new_total :
        (v : Version) (fs : List ForkParameter)
        → All (λ f. fork_epoch f ≡ 0) fs
        → (p : ForkParameters) × (T.fork_parameters_new v fs ≡ success p)
    pub forks-new :
        (v : Version) (fs : List ForkParameter) (p : ForkParameters)
        → T.fork_parameters_new v fs ≡ success p
        → forks p ≡ fs
    pub fork_parameters_readable :
        (v : Version) (fs : List ForkParameter) (p : ForkParameters)
        → T.fork_parameters_new v fs ≡ success p
        → (raw : ProtoForkParameters) × (convert_proto_to_fork_parameters raw ≡ success p)
    pub fork_epoch-new :
        (v : Version) (n : ℕ) (spec : ForkSpec) → fork_epoch (T.fork_parameter_new v n spec) ≡ n
    pub forks-default : forks fork_parameters_default ≡ []
    pub second_fork : bellatrix_index ≡ 1
    pub lc_revision_number-new : (n h : ℕ) → lc_revision_number (lc_height_new n h) ≡ n
    pub lc_revision_height-new : (n h : ℕ) → lc_revision_height (lc_height_new n h) ≡ h
    pub seconds_positive : T.preset_seconds_per_slot ≢ 0
    pub slots_positive : T.preset_slots_per_epoch ≢ 0
    pub epochs_positive : T.preset_epochs_per_sync_committee_period ≢ 0
    pub two_thirds : (f : Fraction) × (fraction_new 2 3 ≡ success f)
    pub two_thirds-ne-default : (f : Fraction) → fraction_new 2 3 ≡ success f → f ≢ fraction_default
    -- A duration whose seconds fit an `i64` is written and read as it is.
    pub duration_written :
        (d : Duration) → d.secs < i64_bound → duration_try_from (duration_into d) ≡ success d
    pub time_from_nanos_total :
        (n : ℕ)
        → n < i64_bound * nanos_per_second
        → (t : Time) × (time_from_nanos n ≡ success t) × (as_unix_timestamp_nanos t ≡ n)
    pub test_key : (k : PublicKey) × (public_key_try_from test_pubkey_bytes ≡ success k)
    pub test_key-ne-default :
        (k : PublicKey) → public_key_try_from test_pubkey_bytes ≡ success k → k ≢ public_key_default
