-- ===== src/Tests/MemStore.antt =====
-- A store in memory and a keeper over any store, which keep what the mock host relies on.
use mathlib.Core.List.{List-discrete}
use native.Mathlib.Decide.{ℕ_discrete}
use ethereum_elc.Base.{
  ℕ, ◌≡◌, ◌≢◌, refl, Option, none, some, List, [], ◌∷◌, Result, success, failure, String,
}
use ethereum_elc.External.Proto.{IbcAny}
use ethereum_elc.UnitTests.MockHost.{KvStore, StoreCrates}
use ethereum_elc.UnitTests.MockHost.Reads.{IsStore, no_write, then_set, IsKeeper}
use ethereum_elc.Tests.Coder.{decode, decode-encode}
use ethereum_elc.Tests.Local.{LocalHeight}
use ethereum_elc.Tests.Instances.{local_crates}
use ethereum_elc.Tests.Texts.{any, codes}

abbrev Memory : Type 0
Memory = List ℕ → Option (List ℕ)

abbrev chosen : {A : Type 0} → Dec A → Option (List ℕ) → Option (List ℕ) → Option (List ℕ)
chosen (yes p) new old = new
chosen (no n) new old = old

abbrev write : List ℕ → Option (List ℕ) → Memory → Memory
write key value h other = chosen (List-discrete ℕ_discrete other key) value (h other)

write_same : (key : List ℕ) (value : Option (List ℕ)) (h : Memory) → write key value h key ≡ value
write_same key value h =
    elim (List-discrete ℕ_discrete key key) as (λ d. chosen d value (h key) ≡ value) [
      | yes p ↦ refl
      | no n ↦ absurd (n refl)
    ]

write_other :
    (key other : List ℕ) (value : Option (List ℕ)) (h : Memory)
    → other ≢ key
    → write key value h other ≡ h other
write_other key other value h apart =
    elim (List-discrete ℕ_discrete other key) as (λ d. chosen d value (h other) ≡ h other) [
      | yes p ↦ absurd (apart p)
      | no n ↦ refl
    ]

abbrev memory : KvStore Memory
memory = record {
  set = λ key value. write key (some value);
  get = λ key h. h key;
  remove = λ key. write key none;
}

memory-IsStore : IsStore memory
memory-IsStore = record {
  get-set = λ key value h. write_same key (some value) h;
  get-set_other = λ key other value h apart. write_other key other (some value) h apart;
  get-remove = λ key h. write_same key none h;
  get-remove_other = λ key other h apart. write_other key other none h apart;
}

abbrev readable : Result (Unit {0}) IbcAny → Result String IbcAny
readable (success a) = success a
readable (failure e) = failure "not readable"

abbrev found : Option (List ℕ) → Result String IbcAny
found none = failure "not found"
found (some b) = readable (decode any b)

abbrev client_key : String → List ℕ
client_key i = 1 ∷ codes i

abbrev consensus_key : String → LocalHeight → List ℕ
consensus_key i k = 2 ∷ k.number ∷ k.block ∷ codes i

abbrev pub local_store : StoreCrates
local_store = record {
  MemStore = Memory;
  mem_default = λ key. none;
  mem_store = memory;
  client_state = λ kv h i. found (kv.get (client_key i) h);
  consensus_state = λ kv h i k. found (kv.get (consensus_key i k) h);
  store_client_type = λ kv i name h. success (kv.set (0 ∷ codes i) (codes name) h);
  store_any_client_state = λ kv i a h. success (kv.set (client_key i) (any.put a []) h);
  store_any_consensus_state = λ kv i k a h. success (kv.set (consensus_key i k) (any.put a []) h);
}

found_written : (a : IbcAny) → found (some (any.put a [])) ≡ success a
found_written a = rw (decode-encode any a (any.put a []) refl) refl

keys_differ : (i j : String) (k : LocalHeight) → client_key i ≢ consensus_key j k
keys_differ i j k = λ e. cc e

pub local-IsKeeper : IsKeeper local_store
local-IsKeeper = record {
  mem_IsStore = memory-IsStore;
  mem_empty = λ key. refl;
  store_client_type_total = λ kv i name h s. (_, refl, then_set _ _ no_write);
  store_any_client_state_total = λ kv i a h s. (
    _,
    refl,
    then_set _ _ no_write,
    rw (s.get-set (client_key i) (any.put a []) h) (found_written a),
  );
  store_any_consensus_state_total = λ kv i k a h s. (
    _,
    refl,
    then_set _ _ no_write,
    rw (s.get-set (consensus_key i k) (any.put a []) h) (found_written a),
    rw (s.get-set_other (consensus_key i k) (client_key i) (any.put a []) h (keys_differ i i k))
        refl,
  );
  client_state_missing = λ kv i h empty. ("not found", rw (empty (client_key i)) refl);
}
