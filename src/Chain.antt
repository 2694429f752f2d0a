-- ===== src/Chain.antt =====
-- A client over time: the framework keeps the states that `update_client` of
-- light-client/src/client.rs returns, and hands them to the next call.
pub mod View
pub mod Steps
pub mod Evidence
pub mod Diamond
pub mod Links
pub mod Latest
pub mod Created
pub mod Freeze
pub mod Written
pub mod Sync
use ethereum_elc.Base.{◌≡◌, ◌≢◌, Result, success, ok}
use ethereum_elc.External.{Crates}
use ethereum_elc.ClientState.{ClientState}
use ethereum_elc.ClientState.Codec.{client_state_from_any}
use ethereum_elc.Header.{Header, header, misbehaviour}
use ethereum_elc.Header.Codec.{client_message_from_ibc}
use ethereum_elc.Misbehaviour.{Misbehaviour}
use ethereum_elc.Services.{Services, HostClientReader, UpdateStateData, MisbehaviourReport}
use ethereum_elc.Client.Update.{update_state, submit_misbehaviour}

module _ ⦃C : Crates⦄ where
  open C use {Any, ClientId, Height, Time, LcError, any_into}

  -- What the framework stores for one client.
  pub record Chain : Type 0 where
    pub client : Any
    pub consensus : Height → Result LcError Any

  abbrev pub host_at : Chain → Time → HostClientReader
  host_at c now = record {
    client_state = λ _. success c.client;
    consensus_state = λ _ height. c.consensus height;
    host_timestamp = now;
  }

  module _ ⦃S : Services⦄ where
    -- The stored client state reads as `s`.
    abbrev pub Holds : Chain → ClientState → Type 0
    Holds c s = client_state_from_any c.client ≡ ok s

    -- A call that returned, at any time and on any message, whose result was stored: a header
    -- replaces the client state and adds the consensus state of its height, misbehaviour replaces
    -- the client state.
    pub data Step (client_id : ClientId) (c d : Chain) : Type 0 where
      by_header :
          (now : Time) (any_message : Any) (h : Header) (r : UpdateStateData)
          → client_message_from_ibc (any_into any_message) ≡ ok (header h)
          → update_state (host_at c now) client_id h ≡ ok r
          → d.client ≡ r.new_any_client_state
          → d.consensus r.height ≡ success r.new_any_consensus_state
          → ((k : Height) → k ≢ r.height → d.consensus k ≡ c.consensus k)
          → Step client_id c d
      by_misbehaviour :
          (now : Time) (any_message : Any) (m : Misbehaviour) (r : MisbehaviourReport)
          → client_message_from_ibc (any_into any_message) ≡ ok (misbehaviour m)
          → submit_misbehaviour (host_at c now) client_id any_message m ≡ ok r
          → d.client ≡ r.new_any_client_state
          → ((k : Height) → d.consensus k ≡ c.consensus k)
          → Step client_id c d

    pub data Reach (client_id : ClientId) (c : Chain) : Chain → Type 0 where
      here : Reach client_id c c
      next : {d e : Chain} → Reach client_id c d → Step client_id d e → Reach client_id c e
