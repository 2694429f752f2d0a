-- ===== src/Chain/Freeze.antt =====
-- A client after accepted evidence: `submit_misbehaviour` of light-client/src/client.rs, and then
-- any calls.
use ethereum_elc.Base.{inl, inr, ℕ, String, ◌≡◌, ◌≢◌, List, ok, arith}
use ethereum_elc.External.{Crates}
use ethereum_elc.ConsensusState.{ConsensusState}
use ethereum_elc.ClientState.{ClientState}
use ethereum_elc.Misbehaviour.{Misbehaviour}
use ethereum_elc.Services.{
  Services, HostClientReader, MisbehaviourReport, VerifyMembershipResult, VerifyNonMembershipResult,
}
use ethereum_elc.Client.Read.{StatesRead}
use ethereum_elc.Client.Update.{update_client, submit_misbehaviour}
use ethereum_elc.Client.Update.Updated.{
  ClientUpdated, by_header, by_misbehaviour, update_client-ClientUpdated,
}
use ethereum_elc.Client.Update.Processed.{submit_misbehaviour-MisbehaviourProcessed}
use ethereum_elc.Client.Membership.{verify_membership, verify_non_membership}
use ethereum_elc.Client.Membership.Verified.{
  verify_membership-MembershipVerified, verify_non_membership-NonMembershipVerified,
}
use ethereum_elc.Laws.{IsLawful, IsCodec}
use ethereum_elc.Chain.{Chain, host_at, Reach}
use ethereum_elc.Chain.View.{rewritten, read-Holds, Reach-view}

module _ ⦃C : Crates⦄ ⦃S : Services⦄ where
  open C use {Any, ClientId, Height, UpdateClientResult}

  -- The states that a call has read, at some height.
  abbrev SomeStates : HostClientReader → ClientId → Type 0
  SomeStates ctx client_id =
      (height : Height) × (client : ClientState) × (consensus : ConsensusState) × StatesRead ctx
        client_id height client consensus

  ClientUpdated-SomeStates :
      (ctx : HostClientReader) (client_id : ClientId) (any_message : Any) {x : UpdateClientResult}
      → ClientUpdated ctx client_id any_message x
      → SomeStates ctx client_id
  ClientUpdated-SomeStates ctx client_id any_message (by_header h r _ p _) =
      (_, p.client, p.consensus, p.states)
  ClientUpdated-SomeStates ctx client_id any_message (by_misbehaviour m r _ p _) =
      (_, p.client, p.consensus, p.states)

  update_client-SomeStates :
      (ctx : HostClientReader) (client_id : ClientId) (any_message : Any) {x : UpdateClientResult}
      → update_client ctx client_id any_message ≡ ok x
      → SomeStates ctx client_id
  update_client-SomeStates ctx client_id any_message {x} e =
      ClientUpdated-SomeStates ctx client_id any_message
        ((update_client-ClientUpdated ctx client_id any_message x).0 e)

module _ ⦃C : Crates⦄ ⦃S : Services⦄ (L : IsLawful) (K : IsCodec) where
  open C use {Any, ClientId, Height, Time, UpdateClientResult, trusted_height}

  -- In a chain that evidence has led to, no call reads states.
  no_states :
      (c d e : Chain) (now later : Time) (client_id : ClientId) (any_message : Any)
      (m : Misbehaviour) (r : MisbehaviourReport)
      → submit_misbehaviour (host_at c now) client_id any_message m ≡ ok r
      → d.client ≡ r.new_any_client_state
      → Reach client_id d e
      → ¬ SomeStates (host_at e later) client_id
  no_states c d e now later client_id any_message m r returned stored calls
        (height, client, consensus, s) =
      let p = (submit_misbehaviour-MisbehaviourProcessed _ _ _ _ _).0 returned in
      let again =
        rewritten L K p.client p.new_client p.states.any_client p.states.client_read _ _
          p.accepted.new_client_state p.client_written in
      let (t, held, _, _, kept) = Reach-view L K client_id p.new_client calls (rw stored again) in
      let (_, unfrozen) = read-Holds e later client_id height s held in
      let frozen = p.accepted.new_client_state in
      elim kept [
        | inl never ↦ ground (arith, frozen, never)
        | inr unchanged ↦ ground (arith, frozen, rw unchanged at unfrozen)
      ]

  -- After submit_misbehaviour has returned and its client state has been stored, and after any
  -- further sequence of calls that returned, at any time: update_client returns no result for any
  -- message, and verify_membership and verify_non_membership return no result for any proof. This
  -- is for crates that keep the assumptions of Laws.
  pub submit_misbehaviour_final :
      (c d e : Chain) (now later : Time) (client_id : ClientId) (any_message : Any)
      (m : Misbehaviour) (r : MisbehaviourReport)
      → submit_misbehaviour (host_at c now) client_id any_message m ≡ ok r
      → d.client ≡ r.new_any_client_state
      → Reach client_id d e
      → ((message : Any) (x : UpdateClientResult)
          → update_client (host_at e later) client_id message ≢ ok x)
        × ((prefix : List ℕ) (path : String) (value : List ℕ) (height : Height) (proof : List ℕ)
              (x : VerifyMembershipResult)
            → verify_membership (host_at e later) client_id prefix path value height proof ≢ ok x)
        × ((prefix : List ℕ) (path : String) (height : Height) (proof : List ℕ)
              (x : VerifyNonMembershipResult)
            → verify_non_membership (host_at e later) client_id prefix path height proof ≢ ok x)
  submit_misbehaviour_final c d e now later client_id any_message m r returned stored calls =
      let never = no_states c d e now later client_id any_message m r returned stored calls in
      (
        λ message x e. never (update_client-SomeStates _ client_id message e),
        λ prefix path value height proof x e.
            let v = (verify_membership-MembershipVerified _ _ _ _ _ _ _ _).0 e in
            never (height, v.client, v.consensus, v.states),
        λ prefix path height proof x e.
            let v = (verify_non_membership-NonMembershipVerified _ _ _ _ _ _ _).0 e in
            never (height, v.client, v.consensus, v.states),
      )
