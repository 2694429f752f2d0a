-- ===== src/StateId/Collision.antt =====
-- light-client/src/state.rs: two pairs of states with one identifier.
use mathlib.Core.Quot
use native.Mathlib.Decide.{ℕ_discrete}
use mathlib.Core.Logic.{◌∨₁◌, ∨₁_prop}
use mathlib.Core.HLevel.{Π_prop}
use ethereum_elc.Base.{ℕ, ◌≡◌, ◌⊎◌, inl, inr, ◌∙◌, sym, ap, some, ok, success}
use ethereum_elc.Std.{Duration, Duration-discrete}
use ethereum_elc.External.{Crates}
use ethereum_elc.ConsensusState.{ConsensusState}
use ethereum_elc.ConsensusState.Codec.{consensus_state_to_any}
use ethereum_elc.ConsensusState.Codec.RoundTrip as ConsensusRoundTrip
use ethereum_elc.ClientState.{ClientState, canonicalize}
use ethereum_elc.ClientState.Codec.{client_state_to_any}
use ethereum_elc.ClientState.Codec.RoundTrip as ClientRoundTrip
use ethereum_elc.StateId.{gen_state_id}
use ethereum_elc.StateId.Identity.{
  SameBut, Parameters, ConsensusState-discrete, canonicalize-IsRepresentable, SameBut-canonicalize,
  gen_state_id_parts, returned-ok, identify,
}
use ethereum_elc.Laws.{IsLawful, IsCodec}
use ethereum_elc.Services.{Services}

module _ ⦃C : Crates⦄ where
  open C use {
    H256, Address, ForkParameters, Fraction, Any, StateId, h256_dec, address_dec,
    fork_parameters_dec, fraction_dec, gen_state_id_from_any,
  }

  -- Two different pairs of encoded states that the hash gives one identifier.
  pub record IsCollision (i : StateId) : Type 0 where
    pub any_client : Any
    pub any_consensus : Any
    pub other_client : Any
    pub other_consensus : Any
    pub identified : gen_state_id_from_any any_client any_consensus ≡ success i
    pub other_identified : gen_state_id_from_any other_client other_consensus ≡ success i
    pub different : (any_client ≡ other_client) × (any_consensus ≡ other_consensus) → ⊥

  -- The parameters that can be compared.
  record Compared : Type 0 where
    root : H256
    participants : ℕ
    genesis_time : ℕ
    fork_parameters : ForkParameters
    seconds_per_slot : ℕ
    slots_per_epoch : ℕ
    epochs : ℕ
    address : Address
    commitments_slot : H256
    trust_level : Fraction
    trusting_period : Duration
    max_clock_drift : Duration

  Compared-discrete : Discrete Compared
  Compared-discrete =
      hlevel
        (ℕ_discrete, h256_dec, fork_parameters_dec, address_dec, fraction_dec, Duration-discrete)

  compared : ClientState → Compared
  compared s = record {
    root = s.genesis_validators_root;
    participants = s.min_sync_committee_participants;
    genesis_time = s.genesis_time;
    fork_parameters = s.fork_parameters;
    seconds_per_slot = s.seconds_per_slot;
    slots_per_epoch = s.slots_per_epoch;
    epochs = s.epochs_per_sync_committee_period;
    address = s.ibc_address;
    commitments_slot = s.ibc_commitments_slot;
    trust_level = s.trust_level;
    trusting_period = s.trusting_period;
    max_clock_drift = s.max_clock_drift;
  }

  compared-SameBut :
      (s t : ClientState)
      → ClientRoundTrip.IsRepresentable s
      → ClientRoundTrip.IsRepresentable t
      → compared s ≡ compared t
      → SameBut s t
  unfolding compared
  compared-SameBut s t rs rt p =
      let consensus = rs.consensus_verifier ∙ sym rt.consensus_verifier in
      let execution = rs.execution_verifier ∙ sym rt.execution_verifier in
      λ i. record {
        genesis_validators_root = (p i).root;
        min_sync_committee_participants = (p i).participants;
        genesis_time = (p i).genesis_time;
        fork_parameters = (p i).fork_parameters;
        seconds_per_slot = (p i).seconds_per_slot;
        slots_per_epoch = (p i).slots_per_epoch;
        epochs_per_sync_committee_period = (p i).epochs;
        ibc_address = (p i).address;
        ibc_commitments_slot = (p i).commitments_slot;
        trust_level = (p i).trust_level;
        trusting_period = (p i).trusting_period;
        max_clock_drift = (p i).max_clock_drift;
        latest_execution_block_number = t.latest_execution_block_number;
        frozen_height = t.frozen_height;
        consensus_verifier = consensus i;
        execution_verifier = execution i;
      }

  SameBut-compared : (s t : ClientState) → SameBut s t → compared s ≡ compared t
  unfolding compared
  SameBut-compared s t e = ap compared e

  -- Representable client states can be told apart, up to their latest height and freeze.
  SameBut-dec :
      (s t : ClientState)
      → ClientRoundTrip.IsRepresentable s
      → ClientRoundTrip.IsRepresentable t
      → Dec (SameBut s t)
  SameBut-dec s t rs rt = elim (Compared-discrete (compared s) (compared t)) [
    | yes p ↦ yes (compared-SameBut s t rs rt p)
    | no n ↦ no (λ e. n (SameBut-compared s t e))
  ]

module _ ⦃C : Crates⦄ ⦃S : Services⦄ (L : IsLawful) (K : IsCodec) where
  open C use {Any, StateId}

  -- States that are written in the same way are the same, up to latest height and freeze.
  same_written :
      (s t : ClientState) (c d : ConsensusState) (a b : Any)
      → ClientRoundTrip.IsRepresentable s
      → ClientRoundTrip.IsRepresentable t
      → ConsensusRoundTrip.IsRepresentable c
      → ConsensusRoundTrip.IsRepresentable d
      → client_state_to_any (canonicalize s) ≡ ok a
      → client_state_to_any (canonicalize t) ≡ ok a
      → consensus_state_to_any c ≡ ok b
      → consensus_state_to_any d ≡ ok b
      → SameBut s t × (c ≡ d)
  same_written s t c d a b rs rt rc rd wa wa' wb wb' =
      let same : canonicalize s ≡ canonicalize t = cc (
        ClientRoundTrip.client_state_from_any-to_any L K (canonicalize s)
            (canonicalize-IsRepresentable s rs) wa,
        ClientRoundTrip.client_state_from_any-to_any L K (canonicalize t)
            (canonicalize-IsRepresentable t rt) wa',
      ) in
      (
        SameBut-canonicalize s t same,
        cc (
          ConsensusRoundTrip.consensus_state_from_any-to_any L K c rc wb,
          ConsensusRoundTrip.consensus_state_from_any-to_any L K d rd wb',
        ),
      )

  collides :
      (s t : ClientState) (c d : ConsensusState) {i : StateId}
      → ClientRoundTrip.IsRepresentable s
      → ClientRoundTrip.IsRepresentable t
      → ConsensusRoundTrip.IsRepresentable c
      → ConsensusRoundTrip.IsRepresentable d
      → gen_state_id s c ≡ ok i
      → gen_state_id t d ≡ ok i
      → (SameBut s t × (c ≡ d) → ⊥)
      → IsCollision i
  collides s t c d rs rt rc rd first second apart =
      let (a, b, wa, wb, ga) = gen_state_id_parts s c first in
      let (a', b', wa', wb', ga') = gen_state_id_parts t d second in
      record {
        any_client = a;
        any_consensus = b;
        other_client = a';
        other_consensus = b';
        identified = ga;
        other_identified = ga';
        different = λ (p, q). apart (
            same_written s t c d a b rs rt rc rd wa (wa' ∙ ap ok (sym p)) wb (wb' ∙ ap ok (sym q)));
      }

  gen_state_id_determines :
      (s t : ClientState) (c d : ConsensusState) {i : StateId}
      → ClientRoundTrip.IsRepresentable s
      → ClientRoundTrip.IsRepresentable t
      → ConsensusRoundTrip.IsRepresentable c
      → ConsensusRoundTrip.IsRepresentable d
      → gen_state_id s c ≡ ok i
      → gen_state_id t d ≡ ok i
      → (SameBut s t × (c ≡ d)) ⊎ IsCollision i
  gen_state_id_determines s t c d rs rt rc rd first second =
      let collision = collides s t c d rs rt rc rd first second in
      elim (SameBut-dec s t rs rt) [
        | no n ↦ inr (collision (λ p. n p.0))
        | yes p ↦ elim (ConsensusState-discrete c d) [
          | no n ↦ inr (collision (λ q. n q.1))
          | yes q ↦ inl (p, q)
        ]
      ]

  -- Client states are taken as the same if all their fields but the latest block number and the
  -- frozen height are equal (a quotient). If two classes of representable client states with two
  -- representable consensus states have the same identifier, then the classes are equal and so are
  -- the consensus states, or the identifier is a collision of the hash: two different pairs of
  -- encoded states that it gives this identifier. This is for crates that keep the assumptions of
  -- Laws; the hash is not assumed to be injective.
  pub identify_determines :
      (p q : Parameters) (c d : ConsensusState) {i : StateId}
      → ConsensusRoundTrip.IsRepresentable c
      → ConsensusRoundTrip.IsRepresentable d
      → identify p c ≡ some i
      → identify q d ≡ some i
      → ((p ≡ q) × (c ≡ d)) ∨₁ IsCollision i
  unfolding identify
  identify_determines p q c d {i} rc rd =
      Quot.ind
        {β = λ p.
          identify p c ≡ some i → identify q d ≡ some i → ((p ≡ q) × (c ≡ d)) ∨₁ IsCollision i}
        (λ p. Π_prop λ _. Π_prop λ _. ∨₁_prop)
        (λ s.
          Quot.ind
            {β = λ q.
              identify (Quot.mk s) c ≡ some i
              → identify q d ≡ some i
              → ((Quot.mk s ≡ q) × (c ≡ d)) ∨₁ IsCollision i}
            (λ q. Π_prop λ _. Π_prop λ _. ∨₁_prop)
            (λ t first second.
              elim (gen_state_id_determines s.0 t.0 c d s.1 t.1 rc rd (returned-ok _ first)
                (returned-ok _ second)) [
                  | inl (same, same') ↦ ∣ inl (Quot.sound same, same') ∣₁
                  | inr collision ↦ ∣ inr collision ∣₁
                ])
            q)
        p
