-- ===== src/Client/Update/PrevStates.antt =====
-- light-client/src/client.rs, `make_prev_states`: the states that a report of misbehaviour lists.
use ethereum_elc.Base.{
  ◌≡◌, refl, sym, List, [], ◌∷◌, map, ok, success, arith, All, >>=-eq-ok, try_with-bind-eq-ok,
  collect,
}
use ethereum_elc.External.{Crates}
use ethereum_elc.ConsensusState.{ConsensusState}
use ethereum_elc.ConsensusState.Codec.{consensus_state_from_any}
use ethereum_elc.ClientState.{ClientState}
use ethereum_elc.StateId.{gen_state_id}
use ethereum_elc.Services.{Services, HostClientReader, PrevState}
use ethereum_elc.Client.Update.{prev_state, make_prev_states}

module _ ⦃C : Crates⦄ ⦃S : Services⦄ where
  open C use {Any, ClientId, Height}

  -- The host holds a readable consensus state at the height of `p`, and `p` has its identifier.
  pub record Identified (ctx : HostClientReader) (client_id : ClientId) (client : ClientState)
      (p : PrevState) : Type 0 where
    pub any_consensus : Any
    pub consensus : ConsensusState
    pub stored : ctx.consensus_state client_id p.height ≡ success any_consensus
    pub consensus_read : consensus_state_from_any any_consensus ≡ ok consensus
    pub id_known : gen_state_id client consensus ≡ ok p.state_id

  prev_state-Identified :
      (ctx : HostClientReader) (client_id : ClientId) (client : ClientState) (height : Height)
      (p : PrevState)
      → prev_state ctx client_id client height ≡ ok p
      → (p.height ≡ height) × Identified ctx client_id client p
  unfolding prev_state
  prev_state-Identified ctx client_id client height p h =
      let (any, stored, h) = try_with-bind-eq-ok _ (ctx.consensus_state client_id height) _ h in
      let (consensus, read, h) = >>=-eq-ok (consensus_state_from_any any) _ h in
      let (state_id, known, h) = >>=-eq-ok (gen_state_id client consensus) _ h in
      let same : record { height = height; state_id = state_id } ≡ p = cc h in
      (
        ground arith,
        record {
          any_consensus = any;
          consensus = consensus;
          stored = ground arith;
          consensus_read = read;
          id_known = ground arith;
        },
      )

  -- The states that `make_prev_states` lists stand at the heights it was given, in their order,
  -- and each has the identifier of the consensus state that the host holds there.
  pub make_prev_states-Identified :
      (ctx : HostClientReader) (client_id : ClientId) (client : ClientState) (heights : List Height)
      {prevs : List PrevState}
      → make_prev_states ctx client_id client heights ≡ ok prevs
      → (map (λ (p : PrevState). p.height) prevs ≡ heights)
        × All (Identified ctx client_id client) prevs
  unfolding make_prev_states collect
  make_prev_states-Identified ctx client_id client [] {prevs} h =
      let e : [] ≡ prevs = cc h in rw (sym e) (refl, tt)
  make_prev_states-Identified ctx client_id client (height ∷ heights) {prevs} h =
      let (p, e, h) = >>=-eq-ok (prev_state ctx client_id client height) _ h in
      let (ps, f, h) = >>=-eq-ok (collect (prev_state ctx client_id client) heights) _ h in
      let same : p ∷ ps ≡ prevs = cc h in
      let (at_height, identified) = prev_state-Identified ctx client_id client height p e in
      let (at_heights, all_identified) =
        make_prev_states-Identified ctx client_id client heights f in
      rw (sym same) (cc (at_height, at_heights), (identified, all_identified))
