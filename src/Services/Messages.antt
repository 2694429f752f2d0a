-- ===== src/Services/Messages.antt =====
-- The structs of the framework that the client fills in, field by field.
use ethereum_elc.Base.{Bool, Option, List, Result}
use ethereum_elc.External.{Crates}

module _ ⦃C : Crates⦄ where
  open C use {
    Any, ClientId, Height, Time, StateId, LcError, TrustingPeriodContext, ProxyMessage,
    MembershipMessage,
  }

  -- `HostClientReader`: what the client may ask of its host.
  pub record HostClientReader : Type 0 where
    pub client_state : ClientId → Result LcError Any
    pub consensus_state : ClientId → Height → Result LcError Any
    pub host_timestamp : Time

  pub record EmittedState : Type 0 where
    pub height : Height
    pub state : Any

  pub data ValidationContext : Type 0 where
    empty : ValidationContext
    trusting_period : TrustingPeriodContext → ValidationContext

  pub record UpdateStateProxyMessage : Type 0 where
    pub prev_height : Option Height
    pub prev_state_id : Option StateId
    pub post_height : Height
    pub post_state_id : StateId
    pub emitted_states : List EmittedState
    pub timestamp : Time
    pub context : ValidationContext

  pub record CreateClientResult : Type 0 where
    pub height : Height
    pub message : ProxyMessage
    pub prove : Bool

  pub record UpdateStateData : Type 0 where
    pub new_any_client_state : Any
    pub new_any_consensus_state : Any
    pub height : Height
    pub message : UpdateStateProxyMessage
    pub prove : Bool

  pub record PrevState : Type 0 where
    pub height : Height
    pub state_id : StateId

  pub record MisbehaviourProxyMessage : Type 0 where
    pub prev_states : List PrevState
    pub context : ValidationContext
    pub client_message : Any

  -- `light_client::MisbehaviourData`
  pub record MisbehaviourReport : Type 0 where
    pub new_any_client_state : Any
    pub message : MisbehaviourProxyMessage

  -- `VerifyMembershipResult` and `VerifyNonMembershipResult`
  pub record VerifyMembershipResult : Type 0 where
    pub message : MembershipMessage

  pub record VerifyNonMembershipResult : Type 0 where
    pub message : MembershipMessage
