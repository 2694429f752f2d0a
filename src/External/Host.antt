-- ===== src/External/Host.antt =====
-- `light_client`, the framework that hosts the client, and the protobuf crate `prost`.
use ethereum_elc.Base.{ℕ, String, Option, Result, List}
use ethereum_elc.Std.{ℤ, Duration}
use ethereum_elc.External.Proto.{IbcAny}

pub record Framework : Type 1 where
  -- `light_client::Error`
  pub LcError : Type 0
  pub CommitmentError : Type 0
  pub TimeError : Type 0
  pub TypeError : Type 0
  pub DecodeError : Type 0
  pub EncodeError : Type 0
  pub Height : Type 0
  pub height_new : (revision_number revision_height : ℕ) → Height
  pub revision_number : Height → ℕ
  pub revision_height : Height → ℕ
  pub Time : Type 0
  pub time_dec : Discrete Time
  pub unix_epoch : Time
  pub time_from_nanos : ℕ → Result TimeError Time
  pub time_from_unix : ℤ → ℕ → Result TimeError Time
  pub as_unix_timestamp_nanos : Time → ℕ
  pub as_unix_timestamp_secs : Time → ℕ
  pub ClientId : Type 0
  pub client_id_dec : Discrete ClientId
  pub client_id_from_str : String → Result TypeError ClientId
  pub client_id_as_str : ClientId → String
  -- `Any`, and its conversions from and to the protobuf message.
  pub Any : Type 0
  pub any_from : IbcAny → Any
  pub any_into : Any → IbcAny
  pub StateId : Type 0
  pub state_id_dec : Discrete StateId
  pub gen_state_id_from_any : Any → Any → Result CommitmentError StateId
  pub TrustingPeriodContext : Type 0
  pub trusting_period_context_new : Duration → Duration → Time → Time → TrustingPeriodContext
  pub MembershipMessage : Type 0
  pub MembershipValue : Type 0
  pub membership_message_new :
      List ℕ → String → Option MembershipValue → Height → StateId → MembershipMessage
  pub ProxyMessage : Type 0
  pub UpdateClientResult : Type 0
  -- `google.protobuf.Duration`, and its conversions.
  pub ProtoDuration : Type 0
  pub DurationError : Type 0
  pub duration_try_from : ProtoDuration → Result DurationError Duration
  pub duration_into : Duration → ProtoDuration
