-- ===== src/Chain/Evidence.antt =====
-- How often evidence is accepted: `submit_misbehaviour` of light-client/src/client.rs in a sequence
-- of calls.
use ethereum_elc.Base.{◌≡◌, Option, none, some, List, [], ◌∷◌, arith, refl}
use ethereum_elc.External.{Crates}
use ethereum_elc.ClientState.{ClientState}
use ethereum_elc.Misc.{to_lcp_height}
use ethereum_elc.Services.{Services}
use ethereum_elc.Laws.{IsLawful, IsCodec}
use ethereum_elc.Chain.{Chain, Holds, Reach, here, next, by_header, by_misbehaviour}
use ethereum_elc.Chain.View.{Step_unfrozen, Reach-view}
use ethereum_elc.Chain.Steps.{header-client, misbehaviour-client}

module _ ⦃C : Crates⦄ ⦃S : Services⦄ where
  open C use {ClientId, Height, trusted_height}

  -- The heights that accepted evidence trusted, the last one first.
  abbrev pub evidence : (client_id : ClientId) {c d : Chain} → Reach client_id c d → List Height
  evidence client_id here = []
  evidence client_id (next reach (by_header _ _ _ _ _ _ _ _ _)) = evidence client_id reach
  evidence client_id (next reach (by_misbehaviour _ _ m _ _ _ _ _)) =
      to_lcp_height (trusted_height m.trusted_sync_committee) ∷ evidence client_id reach

  -- The freeze that a client starts with, and the evidence accepted since: at most one of them.
  abbrev pub freezes : Option Height → List Height
  freezes none = []
  freezes (some h) = h ∷ []

module _ ⦃C : Crates⦄ ⦃S : Services⦄ (L : IsLawful) (K : IsCodec) where
  open C use {ClientId}

  -- After any sequence of calls that returned, from a stored client state that is not frozen, the
  -- list of the heights that the accepted misbehaviour trusted is the freeze of the stored client
  -- state as a list: so misbehaviour was accepted at most once, and the client is frozen, at that
  -- height, exactly if it was. This is for crates that keep the assumptions of Laws.
  pub Reach-freezes :
      (client_id : ClientId) {c d : Chain} (s t : ClientState) (reach : Reach client_id c d)
      → s.frozen_height ≡ none
      → Holds c s
      → Holds d t
      → freezes t.frozen_height ≡ evidence client_id reach
  Reach-freezes client_id s t here unfrozen holds held = ground arith
  Reach-freezes client_id {c} {d} s t
        (next {d = mid} reach (by_header now any_message h r read returned kept p q)) unfrozen holds
        held =
      let (u, middle, _, _, _) = Reach-view L K client_id s reach holds in
      let still = Reach-freezes client_id s u reach unfrozen holds middle in
      let e = header-client L K mid d now client_id h r u t returned kept middle held in rw e still
  Reach-freezes client_id {c} {d} s t
        (next {d = mid} reach (by_misbehaviour now any_message m r read returned kept p)) unfrozen
        holds held =
      let (u, middle, _, _, _) = Reach-view L K client_id s reach holds in
      let still = Reach-freezes client_id s u reach unfrozen holds middle in
      let e =
        misbehaviour-client L K mid d now client_id any_message m r u t returned kept middle held in
      let open_before =
        Step_unfrozen L K client_id {d = d} u
          (by_misbehaviour now any_message m r read returned kept p) middle in
      rw (e, ← still, open_before) refl
