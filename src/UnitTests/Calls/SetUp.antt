-- ===== src/UnitTests/Calls/SetUp.antt =====
-- light-client/src/client.rs, module `tests`: what the tests of the calls rely on, and the host that they set
-- up.
use ethereum_elc.Base.{ℕ, String, ◌≡◌, List, ok, success}
use ethereum_elc.External.{Crates}
use ethereum_elc.ConsensusState.{ConsensusState}
use ethereum_elc.ConsensusState.Codec.{consensus_state_from_any}
use ethereum_elc.ConsensusState.Codec.RoundTrip as ConsensusCodec
use ethereum_elc.ClientState.{ClientState}
use ethereum_elc.ClientState.Codec.{client_state_from_any}
use ethereum_elc.ClientState.Codec.RoundTrip as ClientCodec
use ethereum_elc.Laws.{IsLawful, IsCodec}
use ethereum_elc.Services.{Services}
use ethereum_elc.Chain.Written.{IsWritable, client_state_to_any_total, consensus_state_to_any_total}
use ethereum_elc.Client.{ethereum_client_type}
use ethereum_elc.UnitTests.MockHost.{StoreCrates, MockHostContext, mock_host_new, mock_reader}
use ethereum_elc.UnitTests.MockHost.Reads.{IsKeeper, mock_reader-setup_client}
use ethereum_elc.UnitTests.Calls.{CallCrates, set_up}

module _ ⦃C : Crates⦄ where
  open C use {
    Any, ClientId, Height, Time, any_into, lc_revision_number, lc_revision_height, lc_height_new,
    time_from_nanos,
  }

  pub record IsCallFixture (T : CallCrates) : Type 0 where
    pub client_id_new_total :
        (n : ℕ) → (i : ClientId) × (T.client_id_new ethereum_client_type n ≡ success i)
    pub any_into-any_new :
        (url : String) (value : List ℕ)
        → any_into (T.any_new url value) ≡ record { type_url = url; value = value }
    pub lc_revision_number-new : (n h : ℕ) → lc_revision_number (lc_height_new n h) ≡ n
    pub lc_revision_height-new : (n h : ℕ) → lc_revision_height (lc_height_new n h) ≡ h
    pub epoch : (t : Time) × (time_from_nanos 0 ≡ success t)

  -- States of a fixture that can be written.
  pub record IsStatePair (client : ClientState) (consensus : ConsensusState) : Type 0 where
    pub client_representable : ClientCodec.IsRepresentable client
    pub consensus_representable : ConsensusCodec.IsRepresentable consensus

module _ ⦃C : Crates⦄ ⦃S : Services⦄ (K : StoreCrates) (T : CallCrates) where
  open C use {Any, ClientId, Height, Time}

  -- A mock host that reads as two states at a time.
  pub record IsSetUp (host : MockHostContext K) (now : Time) (i : ClientId) (k : Height)
      (client : ClientState) (consensus : ConsensusState) : Type 0 where
    pub any_client : Any
    pub any_consensus : Any
    pub client_stored : (mock_reader K host).client_state i ≡ success any_client
    pub consensus_stored : (mock_reader K host).consensus_state i k ≡ success any_consensus
    pub client_read : client_state_from_any any_client ≡ ok client
    pub consensus_read : consensus_state_from_any any_consensus ≡ ok consensus
    pub time_kept : (mock_reader K host).host_timestamp ≡ now

  pub set_up-IsSetUp :
      IsLawful
      → IsCodec
      → IsWritable
      → IsKeeper K
      → (now : Time) (i : ClientId) (client : ClientState) (consensus : ConsensusState) (k : Height)
      → IsStatePair client consensus
      → (host : MockHostContext K) × (set_up K T now i client consensus k ≡ ok host)
        × IsSetUp host now i k client consensus
  set_up-IsSetUp L D W R now i client consensus k p =
      let (any_client, written) = client_state_to_any_total W client in
      let (any_consensus, written') = consensus_state_to_any_total W consensus in
      let (host, done, held, held', time) =
        mock_reader-setup_client K R i any_client any_consensus k (mock_host_new K now) in
      (
        host,
        rw (written, written') done,
        record {
          any_client = any_client;
          any_consensus = any_consensus;
          client_stored = held;
          consensus_stored = held';
          client_read =
              ClientCodec.client_state_from_any-to_any L D client p.client_representable written;
          consensus_read =
              ConsensusCodec.consensus_state_from_any-to_any L D consensus p.consensus_representable
                written';
          time_kept = time;
        },
      )
