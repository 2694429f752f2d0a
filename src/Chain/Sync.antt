-- ===== src/Chain/Sync.antt =====
-- light-client/src/client.rs: a relay of headers, each of which trusts the height of the one before.
use Prim.Native.Nat.{max}
use ethereum_elc.Base.{
  ℕ, ◌≡◌, ◌≢◌, refl, Bool, true, false, ◌&&◌, none, some, [], ok, success, ◌==◌, if◌then◌else◌,
  arith,
}
use ethereum_elc.External.{Crates}
use ethereum_elc.ConsensusState.{ConsensusState}
use ethereum_elc.ConsensusState.Codec.{consensus_state_from_any, consensus_state_to_any}
use ethereum_elc.ConsensusState.Codec.RoundTrip as ConsensusCodec
use ethereum_elc.ClientState.{ClientState, ethereum_client_revision_number}
use ethereum_elc.ClientState.Codec.{client_state_to_any}
use ethereum_elc.ClientState.Update.Accepted.{HeaderAccepted}
use ethereum_elc.ClientState.Update.Order.{at_height, HeaderAccepted-at_height}
use ethereum_elc.Header.{Header, header}
use ethereum_elc.Header.Codec.{client_message_from_ibc}
use ethereum_elc.Services.{Services, trusting_period, UpdateStateData}
use ethereum_elc.Client.Update.Processed.{
  HeaderProcessed, trusted_height_of, update_state-HeaderProcessed,
}
use ethereum_elc.Laws.{IsLawful, IsCodec}
use ethereum_elc.Chain.{Chain, Holds, host_at, Step, by_header, Reach, here, next}
use ethereum_elc.Chain.Written.{
  IsWritable, client_state_to_any_total, consensus_state_to_any_total, gen_state_id_writes,
}
use ethereum_elc.Chain.View.{rewritten}

module _ ⦃C : Crates⦄ where
  open C use {Any, Height, StateId, revision_number, revision_height, gen_state_id_from_any}

  abbrev pub same_height : Height → Height → Bool
  same_height k h =
      (revision_number k == revision_number h) && (revision_height k == revision_height h)

  same_height-eq : IsLawful → (k h : Height) → same_height k h ≡ true → k ≡ h
  same_height-eq L k h e = ground (arith, L.height_eta k, L.height_eta h)

  ne-same_height : IsLawful → (k h : Height) → k ≢ h → same_height k h ≡ false
  ne-same_height L k h apart = ground (arith, same_height-eq L k h)

  same_height_self : (k : Height) → same_height k k ≡ true
  same_height_self k = ground arith

  -- What the framework does with the result of an update.
  abbrev pub store : Chain → UpdateStateData → Chain
  store c r = record {
    client = r.new_any_client_state;
    consensus =
        λ k. if same_height k r.height then success r.new_any_consensus_state else c.consensus k;
  }

module _ ⦃C : Crates⦄ ⦃S : Services⦄ where
  open C use {Any, Height, Time, StateId, height_new, block_number, any_into, any_from}

  abbrev pub height_of : Header → Height
  height_of h = height_new ethereum_client_revision_number (block_number h.execution_update)

  -- Messages that a client with the parameters of `s` can follow one after the other, from a trusted
  -- consensus state at a height to the last one: each is a header that trusts the height of the one
  -- before and passes every check there at its own time, and the keys of its committees are written
  -- as keys. The number is the largest block so far.
  pub data Relay (s : ClientState) (k : Height) (trusted : ConsensusState)
      : ℕ → Height → ConsensusState → Type 0 where
    begin : Relay s k trusted s.latest_execution_block_number k trusted
    relayed :
        {n : ℕ} {from to : Height} {before after : ConsensusState}
        → Relay s k trusted n from before
        → (now : Time) (any_message : Any) (h : Header) (t : ClientState)
        → client_message_from_ibc (any_into any_message) ≡ ok (header h)
        → trusted_height_of h ≡ from
        → HeaderAccepted s now before h t after
        → ConsensusCodec.IsRepresentable after
        → to ≡ height_of h
        → Relay s k trusted (max n (block_number h.execution_update)) to after

  -- The client after `n` blocks, at a height that it can go on from.
  record Follows (c : Chain) (s : ClientState) (n : ℕ) (k : Height) (trusted : ConsensusState)
      : Type 0 where
    client_held : Holds c (at_height s n)
    any_trusted : Any
    trusted_stored : c.consensus k ≡ success any_trusted
    trusted_read : consensus_state_from_any any_trusted ≡ ok trusted

module _ ⦃C : Crates⦄ ⦃S : Services⦄ (L : IsLawful) (K : IsCodec) (W : IsWritable) where
  open C use {
    Any, ClientId, Height, Time, height_new, block_number, any_into, trusting_period_context_new,
  }

  processed :
      (c : Chain) (now : Time) (client_id : ClientId) (h : Header) (s t : ClientState) (n : ℕ)
      (before after : ConsensusState)
      → s.frozen_height ≡ none
      → Follows c s n (trusted_height_of h) before
      → HeaderAccepted s now before h t after
      → (r : UpdateStateData) × HeaderProcessed (host_at c now) client_id h r
        × (r.height ≡ height_of h)
        × (client_state_to_any (at_height s (max n (block_number h.execution_update)))
            ≡ ok r.new_any_client_state)
        × (consensus_state_to_any after ≡ ok r.new_any_consensus_state)
  processed c now client_id h s t n before after unfrozen f a =
      let new = at_height s (max n (block_number h.execution_update)) in
      let (any_new, written) = client_state_to_any_total W new in
      let (any_after, written') = consensus_state_to_any_total W after in
      let (prev_id, prev_known) = gen_state_id_writes W (at_height s n) before in
      let (post_id, post_known) = gen_state_id_writes W new after in
      (
        record {
          new_any_client_state = any_new;
          new_any_consensus_state = any_after;
          height = height_of h;
          message = record {
            prev_height = some (trusted_height_of h);
            prev_state_id = some prev_id;
            post_height = height_of h;
            post_state_id = post_id;
            emitted_states = [];
            timestamp = after.timestamp;
            context = trusting_period (
                trusting_period_context_new s.trusting_period s.max_clock_drift after.timestamp
                  before.timestamp);
          };
          prove = true;
        },
        record {
          client = at_height s n;
          consensus = before;
          new_client = new;
          new_consensus = after;
          states = record {
            any_client = c.client;
            any_consensus = f.any_trusted;
            stored_client = refl;
            stored_consensus = f.trusted_stored;
            client_read = f.client_held;
            unfrozen = unfrozen;
            consensus_read = f.trusted_read;
          };
          accepted = HeaderAccepted-at_height s n now before h t after a;
          returned = record {
            prev_id = prev_id;
            post_id = post_id;
            prev_known = prev_known;
            post_known = post_known;
            client_written = written;
            consensus_written = written';
            height_known = refl;
            message_known = refl;
            proved = refl;
          };
        },
        refl,
        written,
        written',
      )

  -- One header more.
  follow :
      (c : Chain) (now : Time) (client_id : ClientId) (any_message : Any) (h : Header)
      (s t : ClientState) (n : ℕ) (before after : ConsensusState)
      → s.frozen_height ≡ none
      → Follows c s n (trusted_height_of h) before
      → client_message_from_ibc (any_into any_message) ≡ ok (header h)
      → HeaderAccepted s now before h t after
      → ConsensusCodec.IsRepresentable after
      → (d : Chain) × Step client_id c d
        × Follows d s (max n (block_number h.execution_update)) (height_of h) after
  follow c now client_id any_message h s t n before after unfrozen f decoded a keys =
      let (r, p, at, written, written') =
        processed c now client_id h s t n before after unfrozen f a in
      let self = same_height_self r.height in
      (
        store c r,
        by_header now any_message h r decoded ((update_state-HeaderProcessed _ _ _ _).1 p) refl
            (rw self) (λ k apart. rw (ne-same_height L k r.height apart)),
        record {
          client_held =
              rewritten L K (at_height s n) (at_height s (max n (block_number h.execution_update)))
                c.client f.client_held _ _ refl written;
          any_trusted = r.new_any_consensus_state;
          trusted_stored = rw (← at) (rw self);
          trusted_read = ConsensusCodec.consensus_state_from_any-to_any L K after keys written';
        },
      )

  -- A client that is not frozen and holds a consensus state that reads can follow every relay of
  -- headers from there, where each header trusts the height of the one before, passes every check
  -- there at its own time and decodes, and the keys of each new consensus state are written as
  -- keys: the calls of update_state reach a chain in which the client state is the first one at
  -- the largest block number of the relay, and the consensus state at the last height reads as the
  -- one that the last header was accepted with. This is for crates that keep the assumptions of
  -- Laws and can write every state.
  pub Relay-Reach :
      (c : Chain) (client_id : ClientId) (s : ClientState) (k : Height) (trusted : ConsensusState)
      (any_trusted : Any) {n : ℕ} {last : Height} {final : ConsensusState}
      → Holds c s
      → s.frozen_height ≡ none
      → c.consensus k ≡ success any_trusted
      → consensus_state_from_any any_trusted ≡ ok trusted
      → Relay s k trusted n last final
      → (d : Chain) × Reach client_id c d
        × Holds d (at_height s n)
        × (any_final : Any) × (d.consensus last ≡ success any_final)
        × (consensus_state_from_any any_final ≡ ok final)
  Relay-Reach c client_id s k trusted any_trusted holds unfrozen stored read begin =
      (c, here, holds, any_trusted, stored, read)
  Relay-Reach c client_id s k trusted any_trusted holds unfrozen stored read
        (relayed {n} {from} {to} {before} {after} relay now any_message h t decoded trusts accepted
          keys last) =
      let (d, reach, held, any_before, stored', read') =
        Relay-Reach c client_id s k trusted any_trusted holds unfrozen stored read relay in
      let f : Follows d s n (trusted_height_of h) before = record {
        client_held = held;
        any_trusted = any_before;
        trusted_stored = rw trusts stored';
        trusted_read = read';
      } in
      let (e, step, g) =
        follow d now client_id any_message h s t n before after unfrozen f decoded accepted keys in
      (e, next reach step, g.client_held, g.any_trusted, rw last g.trusted_stored, g.trusted_read)
