-- ===== src/Chain/Diamond.antt =====
-- Two updates of one client by `update_state` of light-client/src/client.rs, in either order.
use Prim.Native.Nat.{max}
use ethereum_elc.Base.{ℕ, ◌≡◌, ◌⊎◌, ltb, ok, arith, refl, ap, sym, ◌∙◌, Bool-cases, inl, inr}
use ethereum_elc.External.{Crates}
use ethereum_elc.ClientState.{ClientState, canonicalize}
use ethereum_elc.ClientState.Codec.{client_state_to_any}
use ethereum_elc.ClientState.Update.Order.{at_height, HeaderAccepted-at_height}
use ethereum_elc.Header.{Header}
use ethereum_elc.Services.{Services, UpdateStateData}
use ethereum_elc.Client.Update.{update_state}
use ethereum_elc.Client.Update.Processed.{
  HeaderProcessed, trusted_height_of, update_state-HeaderProcessed,
}
use ethereum_elc.Laws.{IsLawful, IsCodec}
use ethereum_elc.Chain.{Chain, Holds, host_at}
use ethereum_elc.Chain.View.{rewritten, read-Holds}
use ethereum_elc.Chain.Links.{gen_state_id_same}

larger_of : (l n m : ℕ) → (max (max l n) m ≡ max l n) ⊎ (max (max l n) m ≡ max l m)
larger_of l n m = elim (Bool-cases (ltb (max l n) m)) [
  | inl larger ↦ inr (ground arith)
  | inr smaller ↦ inl (ground arith)
]

module _ ⦃C : Crates⦄ ⦃S : Services⦄ (L : IsLawful) (K : IsCodec) where
  open C use {Any, ClientId, Time, block_number}

  -- A client state at the larger of two heights is written if it is written at both.
  written_at_larger :
      (s : ClientState) (l n m : ℕ) {a b : Any}
      → client_state_to_any (at_height s (max l n)) ≡ ok a
      → client_state_to_any (at_height s (max l m)) ≡ ok b
      → (w : Any) × (client_state_to_any (at_height s (max (max l n) m)) ≡ ok w)
  written_at_larger s l n m {a} {b} first second = elim (larger_of l n m) [
    | inl kept ↦ (a, rw kept first)
    | inr grown ↦ (b, rw grown second)
  ]

  -- What a header is processed to does not depend on the latest height, but for the client state.
  processed_at :
      (c d : Chain) (now : Time) (client_id : ClientId) (k : Header) (q : UpdateStateData) (l : ℕ)
      (w : Any) (n : HeaderProcessed (host_at c now) client_id k q)
      → Holds d (at_height n.client l)
      → d.consensus (trusted_height_of k) ≡ c.consensus (trusted_height_of k)
      → client_state_to_any (at_height n.client (max l (block_number k.execution_update))) ≡ ok w
      → HeaderProcessed (host_at d now) client_id k (record q { new_any_client_state = w })
  processed_at c d now client_id k q l w n holds kept written =
      let m = block_number k.execution_update in
      let same_new : canonicalize (at_height n.client (max l m)) ≡ canonicalize n.new_client =
        ap canonicalize (sym n.accepted.new_client_state) in
      record {
        client = at_height n.client l;
        consensus = n.consensus;
        new_client = at_height n.client (max l m);
        new_consensus = n.new_consensus;
        states = record {
          any_client = d.client;
          any_consensus = n.states.any_consensus;
          stored_client = refl;
          stored_consensus = kept ∙ n.states.stored_consensus;
          client_read = holds;
          unfrozen = n.states.unfrozen;
          consensus_read = n.states.consensus_read;
        };
        accepted =
            HeaderAccepted-at_height n.client l now n.consensus k n.new_client n.new_consensus
              n.accepted;
        returned = record {
          prev_id = n.returned.prev_id;
          post_id = n.returned.post_id;
          prev_known =
              gen_state_id_same (at_height n.client l) n.client n.consensus refl
              ∙ n.returned.prev_known;
          post_known =
              gen_state_id_same (at_height n.client (max l m)) n.new_client n.new_consensus same_new
              ∙ n.returned.post_known;
          client_written = written;
          consensus_written = n.returned.consensus_written;
          height_known = n.returned.height_known;
          message_known = n.returned.message_known;
          proved = n.returned.proved;
        };
      }

  -- The second of two updates, after the first.
  second_update :
      (c d : Chain) (now later : Time) (client_id : ClientId) (h k : Header) (r q : UpdateStateData)
      → update_state (host_at c now) client_id h ≡ ok r
      → update_state (host_at c later) client_id k ≡ ok q
      → d.client ≡ r.new_any_client_state
      → d.consensus (trusted_height_of k) ≡ c.consensus (trusted_height_of k)
      → (s : ClientState) × Holds c s
        × (w : Any) × (client_state_to_any (
              at_height s (
                max
                  (max s.latest_execution_block_number (block_number h.execution_update))
                  (block_number k.execution_update)))
            ≡ ok w)
        × (update_state (host_at d later) client_id k ≡ ok (record q { new_any_client_state = w }))
  second_update c d now later client_id h k r q first second stored kept =
      let p = (update_state-HeaderProcessed _ _ _ _).0 first in
      let n = (update_state-HeaderProcessed _ _ _ _).0 second in
      let holds : Holds c n.client = ground (arith, n.states) in
      let (same, _) = read-Holds c now client_id _ p.states holds in
      let made = p.accepted.new_client_state in
      let again =
        rewritten L K p.client p.new_client p.states.any_client p.states.client_read _ _ made
          p.returned.client_written in
      let l = max n.client.latest_execution_block_number (block_number h.execution_update) in
      let e : p.new_client ≡ at_height n.client l = rw same at made in
      let (w, written) =
        written_at_larger n.client n.client.latest_execution_block_number
          (block_number h.execution_update) (block_number k.execution_update)
          (rw e at p.returned.client_written)
          (rw n.accepted.new_client_state at n.returned.client_written) in
      (
        n.client,
        holds,
        w,
        written,
        (update_state-HeaderProcessed _ _ _ _).1
            (processed_at c d later client_id k q l w n (rw (stored, ← e) again) kept written),
      )

  -- If two updates each return on the same chain, at their own times, and each result's client
  -- state is stored in a chain that still has the consensus state at the height that the other
  -- header trusts, then each update also returns after the other, with the same consensus state,
  -- height and message as it did at first, and both orders return the same client state. This is
  -- for crates that keep the assumptions of Laws.
  pub update_state_commutes :
      (c d e : Chain) (now later : Time) (client_id : ClientId) (h k : Header)
      (r q : UpdateStateData)
      → update_state (host_at c now) client_id h ≡ ok r
      → update_state (host_at c later) client_id k ≡ ok q
      → d.client ≡ r.new_any_client_state
      → e.client ≡ q.new_any_client_state
      → d.consensus (trusted_height_of k) ≡ c.consensus (trusted_height_of k)
      → e.consensus (trusted_height_of h) ≡ c.consensus (trusted_height_of h)
      → (w : Any) × (update_state (host_at d later) client_id k
          ≡ ok (record q { new_any_client_state = w }))
        × (update_state (host_at e now) client_id h ≡ ok (record r { new_any_client_state = w }))
  update_state_commutes c d e now later client_id h k r q first second stored stored' kept kept' =
      let (s, holds, w, written, after) =
        second_update c d now later client_id h k r q first second stored kept in
      let (t, holds', v, written', after') =
        second_update c e later now client_id k h q r second first stored' kept' in
      let l = s.latest_execution_block_number in
      let n = block_number h.execution_update in
      let m = block_number k.execution_update in
      let one : t ≡ s = ground (arith, holds, holds') in
      let swapped : max (max l m) n ≡ max (max l n) m = omega arith in
      let same : v ≡ w = ground (arith, written, rw (one, swapped) at written') in
      (w, after, rw same at after')
