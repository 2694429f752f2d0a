-- ===== src/Chain/Latest.antt =====
-- The latest height over time: what the `latest_height` call of light-client/src/client.rs answers
-- after any calls that returned.
use Prim.Native.Nat.{max}
use ethereum_elc.Base.{ℕ, ◌≡◌, ap, List, [], ◌∷◌, ok, arith, refl}
use ethereum_elc.External.{Crates}
use ethereum_elc.Misc.{to_lcp_height}
use ethereum_elc.ClientState.{ClientState, ethereum_client_revision_number}
use ethereum_elc.Services.{Services}
use ethereum_elc.Client.{client_latest_height}
use ethereum_elc.Laws.{IsLawful, IsCodec}
use ethereum_elc.Chain.{Chain, Holds, host_at, by_header, by_misbehaviour, Reach, here, next}
use ethereum_elc.Chain.Steps.{header-client, misbehaviour-client}
use ethereum_elc.Chain.View.{Reach-view}

module _ ⦃C : Crates⦄ ⦃S : Services⦄ where
  open C use {ClientId, block_number}

  -- The block numbers of the headers that were accepted, the last one first.
  abbrev pub blocks : (client_id : ClientId) {c d : Chain} → Reach client_id c d → List ℕ
  blocks client_id here = []
  blocks client_id (next reach (by_header _ _ h _ _ _ _ _ _)) =
      block_number h.execution_update ∷ blocks client_id reach
  blocks client_id (next reach (by_misbehaviour _ _ _ _ _ _ _ _)) = blocks client_id reach

abbrev pub largest : ℕ → List ℕ → ℕ
largest n [] = n
largest n (b ∷ bs) = max (largest n bs) b

module _ ⦃C : Crates⦄ ⦃S : Services⦄ (L : IsLawful) (K : IsCodec) where
  open C use {Any, ClientId, Time, block_number, lc_height_new}

  Reach-latest :
      (client_id : ClientId) {c d : Chain} (s t : ClientState) (reach : Reach client_id c d)
      → Holds c s
      → Holds d t
      → t.latest_execution_block_number
        ≡ largest s.latest_execution_block_number (blocks client_id reach)
  Reach-latest client_id s t here holds held = ground arith
  Reach-latest client_id {c} {d} s t
        (next {d = mid} reach (by_header now any_message h r read returned kept _ _)) holds held =
      let (u, middle, _, _, _) = Reach-view L K client_id s reach holds in
      let still = Reach-latest client_id s u reach holds middle in
      rw (header-client L K mid d now client_id h r u t returned kept middle held, still) refl
  Reach-latest client_id {c} {d} s t
        (next {d = mid} reach (by_misbehaviour now any_message m r read returned kept _)) holds
        held =
      let (u, middle, _, _, _) = Reach-view L K client_id s reach holds in
      let still = Reach-latest client_id s u reach holds middle in
      rw (misbehaviour-client L K mid d now client_id any_message m r u t returned kept middle held)
        still

  -- After any sequence of calls that returned, from a stored client state that reads as s,
  -- latest_height returns, with the revision number 0, the maximum of the latest execution block
  -- number of s and the execution block numbers of all headers that were accepted; misbehaviour
  -- does not count. This is for crates that keep the assumptions of Laws.
  pub client_latest_height-Reach :
      (client_id : ClientId) {c d : Chain} (s : ClientState) (reach : Reach client_id c d)
      (now : Time)
      → Holds c s
      → client_latest_height (host_at d now) client_id
        ≡ ok (
            to_lcp_height (
              lc_height_new ethereum_client_revision_number
                (largest s.latest_execution_block_number (blocks client_id reach))))
  unfolding client_latest_height
  client_latest_height-Reach client_id s reach now holds =
      let (t, held, _, _, _) = Reach-view L K client_id s reach holds in
      rw held (
        ap (λ n. ok (to_lcp_height (lc_height_new ethereum_client_revision_number n)))
          (Reach-latest client_id s t reach holds held))
