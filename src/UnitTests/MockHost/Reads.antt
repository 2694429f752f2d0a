-- ===== src/UnitTests/MockHost/Reads.antt =====
-- light-client/src/client.rs, module `tests`: the mock host answers with what was set up.
use ethereum_elc.Base.{ℕ, String, ◌≡◌, ◌≢◌, refl, ◌∙◌, none, some, List, ok, success, failure}
use ethereum_elc.External.{Crates}
use ethereum_elc.Client.{ethereum_client_type}
use ethereum_elc.UnitTests.MockHost.{
  KvStore, StoreCrates, MockHostContext, mock_host_new, mock_store, mock_reader, setup_client,
}

-- A store has under a key what was last set there and not removed.
pub record IsStore {H : Type 0} (kv : KvStore H) : Type 0 where
  pub get-set : (key value : List ℕ) (h : H) → kv.get key (kv.set key value h) ≡ some value
  pub get-set_other :
      (key other value : List ℕ) (h : H)
      → other ≢ key
      → kv.get other (kv.set key value h) ≡ kv.get other h
  pub get-remove : (key : List ℕ) (h : H) → kv.get key (kv.remove key h) ≡ none
  pub get-remove_other :
      (key other : List ℕ) (h : H) → other ≢ key → kv.get other (kv.remove key h) ≡ kv.get other h

-- What the methods of a store make of it.
pub data Writes {H : Type 0} (kv : KvStore H) (h : H) : H → Type 0 where
  no_write : Writes kv h h
  then_set : {g : H} (key value : List ℕ) → Writes kv h g → Writes kv h (kv.set key value g)
  then_remove : {g : H} (key : List ℕ) → Writes kv h g → Writes kv h (kv.remove key g)

module _ ⦃C : Crates⦄ where
  open C use {Any, ClientId, Height, Time, LcError}

  -- The keeper, over any store: each part has its own key, and a write succeeds.
  pub record IsKeeper (K : StoreCrates) : Type 1 where
    pub mem_IsStore : IsStore K.mem_store
    pub mem_empty : (key : List ℕ) → K.mem_store.get key K.mem_default ≡ none
    pub store_client_type_total :
        {H : Type 0} (kv : KvStore H) (i : ClientId) (name : String) (h : H)
        → IsStore kv
        → (g : H) × (K.store_client_type kv i name h ≡ success g) × Writes kv h g
    pub store_any_client_state_total :
        {H : Type 0} (kv : KvStore H) (i : ClientId) (a : Any) (h : H)
        → IsStore kv
        → (g : H) × (K.store_any_client_state kv i a h ≡ success g)
          × Writes kv h g
          × (K.client_state kv g i ≡ success a)
    pub store_any_consensus_state_total :
        {H : Type 0} (kv : KvStore H) (i : ClientId) (k : Height) (a : Any) (h : H)
        → IsStore kv
        → (g : H) × (K.store_any_consensus_state kv i k a h ≡ success g)
          × Writes kv h g
          × (K.consensus_state kv g i k ≡ success a)
          × (K.client_state kv g i ≡ K.client_state kv h i)
    -- A client that is not there is an error.
    pub client_state_missing :
        {H : Type 0} (kv : KvStore H) (i : ClientId) (h : H)
        → ((key : List ℕ) → kv.get key h ≡ none)
        → (e : LcError) × (K.client_state kv h i ≡ failure e)

  module _ (K : StoreCrates) (L : IsKeeper K) where
    -- The mock host is a store because its memory is one.
    pub mock_store-IsStore : IsStore (mock_store K)
    unfolding mock_store
    mock_store-IsStore = record {
      get-set = λ key value h. L.mem_IsStore.get-set key value h.store;
      get-set_other =
          λ key other value h apart. L.mem_IsStore.get-set_other key other value h.store apart;
      get-remove = λ key h. L.mem_IsStore.get-remove key h.store;
      get-remove_other =
          λ key other h apart. L.mem_IsStore.get-remove_other key other h.store apart;
    }

    -- Its clock is not in the store.
    host_timestamp-Writes :
        (h : MockHostContext K) {g : MockHostContext K}
        → Writes (mock_store K) h g
        → g.host_timestamp ≡ h.host_timestamp
    unfolding mock_store
    host_timestamp-Writes h no_write = refl
    host_timestamp-Writes h (then_set key value w) = host_timestamp-Writes h w
    host_timestamp-Writes h (then_remove key w) = host_timestamp-Writes h w

    -- Set up.
    pub mock_reader-setup_client :
        (i : ClientId) (any_client any_consensus : Any) (k : Height) (h : MockHostContext K)
        → (g : MockHostContext K) × (setup_client K i any_client any_consensus k h ≡ ok g)
          × ((mock_reader K g).client_state i ≡ success any_client)
          × ((mock_reader K g).consensus_state i k ≡ success any_consensus)
          × ((mock_reader K g).host_timestamp ≡ h.host_timestamp)
    unfolding setup_client mock_reader
    mock_reader-setup_client i any_client any_consensus k h =
        let kv = mock_store K in
        let store = mock_store-IsStore in
        let (h1, first, w1) = L.store_client_type_total kv i ethereum_client_type h store in
        let (h2, second, w2, held) = L.store_any_client_state_total kv i any_client h1 store in
        let (h3, third, w3, held', kept) =
          L.store_any_consensus_state_total kv i k any_consensus h2 store in
        (
          h3,
          rw (first, second, third) refl,
          kept ∙ held,
          held',
          host_timestamp-Writes h2 w3 ∙ host_timestamp-Writes h1 w2 ∙ host_timestamp-Writes h w1,
        )

    -- Nothing is in a new one.
    pub mock_reader_new :
        (i : ClientId) (now : Time)
        → (e : LcError) × ((mock_reader K (mock_host_new K now)).client_state i ≡ failure e)
    unfolding mock_reader mock_store
    mock_reader_new i now =
        L.client_state_missing (mock_store K) i (mock_host_new K now) L.mem_empty
