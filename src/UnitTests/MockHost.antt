-- ===== src/UnitTests/MockHost.antt =====
-- light-client/src/client.rs, module `tests`: the mock host, a host over a store in memory. The store
-- and the keeper of states, whose methods are generic in the store, are other crates'.
pub mod Reads
use ethereum_elc.Base.{ℕ, String, Option, List, ok, Result, ◌>>=◌, expect}
use ethereum_elc.External.{Crates}
use ethereum_elc.Client.{ethereum_client_type}
use ethereum_elc.Services.{HostClientReader}
use ethereum_elc.UnitTests.{TestRun}

-- The trait `store::KVStore`; a method that changes the store gives it back changed.
pub record KvStore (H : Type 0) : Type 0 where
  pub set : (key value : List ℕ) → H → H
  pub get : (key : List ℕ) → H → Option (List ℕ)
  pub remove : (key : List ℕ) → H → H

module _ ⦃C : Crates⦄ where
  open C use {Any, ClientId, Height, Time, LcError}

  -- `store::memory::MemStore`, and the methods that `ClientReader` and `ClientKeeper` of
  -- `light_client` have for every store.
  pub record StoreCrates : Type 1 where
    pub MemStore : Type 0
    pub mem_default : MemStore
    pub mem_store : KvStore MemStore
    pub client_state : {H : Type 0} → KvStore H → H → ClientId → Result LcError Any
    pub consensus_state : {H : Type 0} → KvStore H → H → ClientId → Height → Result LcError Any
    pub store_client_type : {H : Type 0} → KvStore H → ClientId → String → H → Result LcError H
    pub store_any_client_state : {H : Type 0} → KvStore H → ClientId → Any → H → Result LcError H
    pub store_any_consensus_state :
        {H : Type 0} → KvStore H → ClientId → Height → Any → H → Result LcError H

  module _ (K : StoreCrates) where
    pub record MockHostContext : Type 0 where
      pub store : K.MemStore
      pub host_timestamp : Time

    -- `MockHostContext::new`
    abbrev pub mock_host_new : Time → MockHostContext
    mock_host_new host_timestamp = record { store = K.mem_default; host_timestamp = host_timestamp }

    -- `impl KVStore for MockHostContext`
    unfoldable pub mock_store : KvStore MockHostContext
    mock_store = record {
      set = λ key value host. record host { store = K.mem_store.set key value host.store };
      get = λ key host. K.mem_store.get key host.store;
      remove = λ key host. record host { store = K.mem_store.remove key host.store };
    }

    -- `HostContext`, `ClientReader` and `HostClientReader` for `MockHostContext`
    unfoldable pub mock_reader : MockHostContext → HostClientReader
    mock_reader host = record {
      client_state = K.client_state mock_store host;
      consensus_state = K.consensus_state mock_store host;
      host_timestamp = host.host_timestamp;
    }

    -- `MockHostContext::setup_client`
    unfoldable pub setup_client :
        ClientId
        → (client_state consensus_state : Any) → Height
        → MockHostContext
        → TestRun MockHostContext
    setup_client client_id client_state consensus_state height host = do
      host ← expect (K.store_client_type mock_store client_id ethereum_client_type host)
      host ← expect (K.store_any_client_state mock_store client_id client_state host)
      expect (K.store_any_consensus_state mock_store client_id height consensus_state host)
