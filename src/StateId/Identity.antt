-- ===== src/StateId/Identity.antt =====
-- light-client/src/state.rs: what an identifier says about the states that it was made from. The
-- client states are taken up to their latest height and their freeze.
use mathlib.Core.HLevel.{hedberg, ×_prop}
use mathlib.Core.Quot
use mathlib.Core.Quot.{Quot, Quot-set}
use native.Mathlib.Decide.{ℕ_discrete}
use ethereum_elc.Base.{
  ◌≡◌, Option, none, some, Outcome, ok, err, panic, success, arith, ap, >>=-eq-ok,
}
use ethereum_elc.External.{Crates}
use ethereum_elc.Errors.{Error}
use ethereum_elc.ConsensusState.{ConsensusState}
use ethereum_elc.ConsensusState.Codec.{consensus_state_to_any}
use ethereum_elc.ClientState.{ClientState, canonicalize}
use ethereum_elc.ClientState.Codec.{client_state_to_any}
use ethereum_elc.ClientState.Codec.RoundTrip as ClientRoundTrip
use ethereum_elc.StateId.{gen_state_id}
use ethereum_elc.Services.{Services}

module _ ⦃C : Crates⦄ where
  open C use {Any, StateId, gen_state_id_from_any, state_id_dec, h256_dec, public_key_dec, time_dec}

  -- A client state that protobuf represents.
  abbrev pub Readable : Type 0
  Readable = (s : ClientState) × ClientRoundTrip.IsRepresentable s

  -- The one state with the latest height and the freeze of the other is the other.
  abbrev pub SameBut : ClientState → ClientState → Type 0
  SameBut s t =
      (record s {
        latest_execution_block_number = t.latest_execution_block_number;
        frozen_height = t.frozen_height;
      })
      ≡ t

  -- Two client states that differ at most in their latest height and their freeze.
  abbrev pub SameParameters : Readable → Readable → Type 0
  SameParameters s t = SameBut s.0 t.0

  abbrev pub Parameters : Type 0
  Parameters = Quot SameParameters

  pub ConsensusState-discrete : Discrete ConsensusState
  ConsensusState-discrete = hlevel (ℕ_discrete, h256_dec, public_key_dec, time_dec)

  same_prop : (p q : Parameters) (c d : ConsensusState) → IsProp ((p ≡ q) × (c ≡ d))
  same_prop p q c d = ×_prop (Quot-set p q) (hedberg ConsensusState-discrete c d)

  pub canonicalize-IsRepresentable :
      (s : ClientState)
      → ClientRoundTrip.IsRepresentable s
      → ClientRoundTrip.IsRepresentable (canonicalize s)
  canonicalize-IsRepresentable s r = record {
    fork_parameters = r.fork_parameters;
    trust_level = r.trust_level;
    trusting_period = r.trusting_period;
    max_clock_drift = r.max_clock_drift;
    consensus_verifier = r.consensus_verifier;
    execution_verifier = r.execution_verifier;
  }

  canonicalize-SameBut : (s t : ClientState) → SameBut s t → canonicalize s ≡ canonicalize t
  canonicalize-SameBut s t e = ap canonicalize e

  pub SameBut-canonicalize : (s t : ClientState) → canonicalize s ≡ canonicalize t → SameBut s t
  SameBut-canonicalize s t e =
      ap
        (λ (u : ClientState). record u {
          latest_execution_block_number = t.latest_execution_block_number;
          frozen_height = t.frozen_height;
        })
        e

  module _ ⦃S : Services⦄ where
    pub gen_state_id_parts :
        (s : ClientState) (c : ConsensusState) {i : StateId}
        → gen_state_id s c ≡ ok i
        → (a : Any) × (b : Any) × (client_state_to_any (canonicalize s) ≡ ok a)
          × (consensus_state_to_any c ≡ ok b)
          × (gen_state_id_from_any a b ≡ success i)
    unfolding gen_state_id
    gen_state_id_parts s c h =
        let (a, written, h) = >>=-eq-ok (client_state_to_any (canonicalize s)) _ h in
        let (b, written', h) = >>=-eq-ok (consensus_state_to_any c) _ h in
        (a, b, written, written', ground arith)

    abbrev returned {ℓ} : {A : Type ℓ} → Outcome Error A → Option A
    returned (ok a) = some a
    returned (err e) = none
    returned panic = none

    pub returned-ok {ℓ} :
        {A : Type ℓ} (m : Outcome Error A) {a : A} → returned m ≡ some a → m ≡ ok a
    returned-ok m h = ground arith

    pub gen_state_id-canonicalize :
        (c : ConsensusState) (s t : Readable)
        → SameParameters s t
        → gen_state_id s.0 c ≡ gen_state_id t.0 c
    unfolding gen_state_id
    gen_state_id-canonicalize c s t e = rw (canonicalize-SameBut s.0 t.0 e)

    -- The identifier of a pair of states, where there is one.
    unfoldable pub identify : Parameters → ConsensusState → Option StateId
    identify p c =
        Quot.lift (hlevel (hedberg state_id_dec)) (λ (s : Readable). returned (gen_state_id s.0 c))
          (λ s t e. ap returned (gen_state_id-canonicalize c s t e)) p
