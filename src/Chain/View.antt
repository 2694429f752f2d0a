-- ===== src/Chain/View.antt =====
-- The client as its users see it, of light-client/src/client_state.rs: parameters, a latest height and
-- a freeze, with the changes that a call may make to them.
use Prim.Native.Nat.{max}
use ethereum_elc.Base.{
  inl, inr, ◌⊎◌, ℕ, ◌≤◌, ◌≡◌, ◌≢◌, refl, Option, none, some, ok, arith, ap, ◌∙◌,
}
use ethereum_elc.External.{Crates}
use ethereum_elc.Misc.{to_lcp_height}
use ethereum_elc.ConsensusState.{ConsensusState}
use ethereum_elc.Header.{Header}
use ethereum_elc.Misbehaviour.{Misbehaviour}
use ethereum_elc.ClientState.{ClientState, canonicalize}
use ethereum_elc.ClientState.Codec.{client_state_from_any, client_state_to_any}
use ethereum_elc.ClientState.Codec.RoundTrip.{
  client_state_from_any-IsRepresentable, client_state_from_any-to_any,
}
use ethereum_elc.Services.{Services, UpdateStateData, MisbehaviourReport}
use ethereum_elc.Client.Read.{StatesRead}
use ethereum_elc.Client.Update.Processed.{
  HeaderProcessed, MisbehaviourProcessed, update_state-HeaderProcessed,
  submit_misbehaviour-MisbehaviourProcessed,
}
use ethereum_elc.Laws.{IsLawful, IsCodec}
use ethereum_elc.Chain.{Chain, Holds, host_at, Step, by_header, by_misbehaviour, Reach, here, next}

module _ ⦃C : Crates⦄ where
  open C use {ClientId, Height}

  -- The canonical client state is the parameters: neither the latest height nor the freeze.
  pub record View : Type 0 where
    pub params : ClientState
    pub latest : ℕ
    pub frozen : Option Height

  abbrev pub view : ClientState → View
  view s = record {
    params = canonicalize s;
    latest = s.latest_execution_block_number;
    frozen = s.frozen_height;
  }

  pub data Allowed (v w : View) : Type 0 where
    advance : (n : ℕ) → v.frozen ≡ none → w ≡ record v { latest = max v.latest n } → Allowed v w
    freeze : (h : Height) → v.frozen ≡ none → w ≡ record v { frozen = some h } → Allowed v w

module _ ⦃C : Crates⦄ ⦃S : Services⦄ where
  open C use {ClientId, Height, Time}

  -- The host of a chain reads the state that the chain holds, and it is not frozen.
  pub read-Holds :
      (c : Chain) (now : Time) (client_id : ClientId) (height : Height) {s client : ClientState}
      {consensus : ConsensusState}
      → StatesRead (host_at c now) client_id height client consensus
      → Holds c s
      → (client ≡ s) × (s.frozen_height ≡ none)
  read-Holds c now client_id height r holds = (ground arith, ground arith)

module _ ⦃C : Crates⦄ ⦃S : Services⦄ (L : IsLawful) (K : IsCodec) where
  open C use {Any, ClientId, Height, Time, block_number, trusted_height}

  -- A state with another height or freeze is written and read back as it is.
  pub rewritten :
      (s t : ClientState) (any : Any) {written : Any}
      → client_state_from_any any ≡ ok s
      → (n : ℕ) (o : Option Height)
      → t ≡ record s { latest_execution_block_number = n; frozen_height = o }
      → client_state_to_any t ≡ ok written
      → client_state_from_any written ≡ ok t
  rewritten s t any read n o e w =
      let r = client_state_from_any-IsRepresentable L any read in
      client_state_from_any-to_any L K t
        (rw e (record {
          fork_parameters = r.fork_parameters;
          trust_level = r.trust_level;
          trusting_period = r.trusting_period;
          max_clock_drift = r.max_clock_drift;
          consensus_verifier = r.consensus_verifier;
          execution_verifier = r.execution_verifier;
        }))
        w

  header-Allowed :
      (c : Chain) (now : Time) (client_id : ClientId) (h : Header) (r : UpdateStateData)
      (s : ClientState)
      → HeaderProcessed (host_at c now) client_id h r
      → Holds c s
      → (t : ClientState) × (client_state_from_any r.new_any_client_state ≡ ok t)
        × Allowed (view s) (view t)
  header-Allowed c now client_id h r s p holds =
      let (same, unfrozen) = read-Holds c now client_id _ p.states holds in
      let e = p.accepted.new_client_state in
      (
        p.new_client,
        rewritten s p.new_client c.client holds _ _ (rw same at e) p.returned.client_written,
        advance (block_number h.execution_update) unfrozen (rw (e, same)),
      )

  misbehaviour-Allowed :
      (c : Chain) (now : Time) (client_id : ClientId) (any_message : Any) (m : Misbehaviour)
      (r : MisbehaviourReport) (s : ClientState)
      → MisbehaviourProcessed (host_at c now) client_id any_message m r
      → Holds c s
      → (t : ClientState) × (client_state_from_any r.new_any_client_state ≡ ok t)
        × Allowed (view s) (view t)
  misbehaviour-Allowed c now client_id any_message m r s p holds =
      let (same, unfrozen) = read-Holds c now client_id _ p.states holds in
      let e = p.accepted.new_client_state in
      (
        p.new_client,
        rewritten s p.new_client c.client holds _ _ (rw same at e) p.client_written,
        freeze (to_lcp_height (trusted_height m.trusted_sync_committee)) unfrozen (rw (e, same)),
      )

  -- One call that returned, whose result was stored, refines the abstract client of three fields
  -- (parameters, latest height, freeze): from a stored state that reads as s, the new stored state
  -- reads as some t, and the view of t is that of s with the latest height raised to the maximum
  -- with some number, or with the freeze set to some height, and in both cases s was not frozen.
  -- This is for crates that keep the assumptions of Laws.
  pub Step-Allowed :
      (client_id : ClientId) {c d : Chain} (s : ClientState)
      → Step client_id c d
      → Holds c s
      → (t : ClientState) × Holds d t × Allowed (view s) (view t)
  Step-Allowed client_id {c} {d} s (by_header now any_message h r _ returned kept _ _) holds =
      rw kept (
        header-Allowed c now client_id h r s ((update_state-HeaderProcessed _ _ _ _).0 returned)
          holds)
  Step-Allowed client_id {c} {d} s (by_misbehaviour now any_message m r _ returned kept _) holds =
      rw kept (
        misbehaviour-Allowed c now client_id any_message m r s
          ((submit_misbehaviour-MisbehaviourProcessed _ _ _ _ _).0 returned) holds)

  Allowed-params : (s t : ClientState) → Allowed (view s) (view t) → canonicalize t ≡ canonicalize s
  Allowed-params s t (advance n _ e) = ap (λ v. v.params) e
  Allowed-params s t (freeze h _ e) = ap (λ v. v.params) e

  Allowed-latest :
      (s t : ClientState)
      → Allowed (view s) (view t)
      → s.latest_execution_block_number ≤ t.latest_execution_block_number
  Allowed-latest s t (advance n _ e) = let e' = ap (λ v. v.latest) e in ground arith
  Allowed-latest s t (freeze h _ e) = let e' = ap (λ v. v.latest) e in ground arith

  Allowed-unfrozen : (s t : ClientState) → Allowed (view s) (view t) → s.frozen_height ≡ none
  Allowed-unfrozen s t (advance n u _) = u
  Allowed-unfrozen s t (freeze h u _) = u

  -- A client that makes a step was not frozen before it.
  pub Step_unfrozen :
      (client_id : ClientId) {c d : Chain} (s : ClientState)
      → Step client_id c d
      → Holds c s
      → s.frozen_height ≡ none
  Step_unfrozen client_id s step holds =
      let (t, held, allowed) = Step-Allowed client_id s step holds in Allowed-unfrozen s t allowed

  -- A frozen client has made no step, whatever calls were tried on it.
  pub Step_frozen :
      (client_id : ClientId) {c d : Chain} (s : ClientState)
      → Holds c s
      → s.frozen_height ≢ none
      → ¬ Step client_id c d
  Step_frozen client_id s holds frozen step = frozen (Step_unfrozen client_id s step holds)

  -- Over any sequence of calls of update_state and submit_misbehaviour that returned, at any times
  -- and on any messages, with each returned client state stored and handed to the next call: if
  -- the stored client state reads as s at the start, a state t can be read at the end; t has the
  -- parameters of s (equal once the latest height and the freeze are cleared), its latest
  -- execution block number is at least that of s, and either s is not frozen or t is s. This is
  -- for crates that keep the assumptions of Laws.
  pub Reach-view :
      (client_id : ClientId) {c d : Chain} (s : ClientState)
      → Reach client_id c d
      → Holds c s
      → (t : ClientState) × Holds d t
        × (canonicalize t ≡ canonicalize s)
        × (s.latest_execution_block_number ≤ t.latest_execution_block_number)
        × ((s.frozen_height ≡ none) ⊎ (t ≡ s))
  Reach-view client_id s here holds = (s, holds, refl, omega arith, inr refl)
  Reach-view client_id s (next reach step) holds =
      let (t, held, same, grown, kept) = Reach-view client_id s reach holds in
      let (u, holds', allowed) = Step-Allowed client_id t step held in
      let latest = Allowed-latest t u allowed in
      let unfrozen = Allowed-unfrozen t u allowed in
      (
        u,
        holds',
        Allowed-params t u allowed ∙ same,
        omega arith,
        inl (elim kept [
          | inl open_before ↦ open_before
          | inr unchanged ↦ rw unchanged at unfrozen
        ]),
      )
