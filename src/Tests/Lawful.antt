-- ===== src/Tests/Lawful.antt =====
-- The crates of the examples keep the assumptions of `Laws`.
use mathlib.Core.List.{Forall₂}
use ethereum_elc.Base.{ℕ, ◌≡◌, refl, ap, some, List, [], ◌∷◌, map, success, length, arith}
use ethereum_elc.External.Proto.{RawFork}
use ethereum_elc.ClientState.Codec.{make_fork, fork_parameters_into}
use ethereum_elc.Laws.Forks.{HasFork}
use ethereum_elc.Laws.{IsLawful, IsCodec}
use ethereum_elc.Chain.Written.{IsWritable}
use ethereum_elc.Tests.Local.{LocalFraction, hash_from, first}
use ethereum_elc.Tests.Instants.{instant_bound, instant_from_parts_of}
use ethereum_elc.Tests.Instances.{local_crates, local_fraction}
use ethereum_elc.Tests.Coder.{decode-encode}
use ethereum_elc.Tests.Wire.{client_state, consensus_state}
use ethereum_elc.Tests.Handlers.{local_services}

hash_total : (b : List ℕ) → length b ≡ 32 → (h : ℕ) × (hash_from b ≡ some h)
hash_total [] e = ground arith
hash_total (h ∷ hs) e = (h, ground arith)

first_stable : (b : List ℕ) (k : ℕ) → first b ≡ success k → first (k ∷ []) ≡ success k
first_stable b k e = refl

fraction_stable :
    (n d : ℕ) (f : LocalFraction)
    → local_fraction n d ≡ success f
    → local_fraction f.numerator f.denominator ≡ success f
fraction_stable n d f e = ground arith

epochs_kept :
    (epochs : List ℕ)
    → map (λ (f : RawFork). f.epoch) (map (λ epoch. make_fork 1 epoch tt) epochs) ≡ epochs
unfolding make_fork
epochs_kept [] = refl
epochs_kept (e ∷ es) = ap (λ rest. e ∷ rest) (epochs_kept es)

pub fork_parameters_kept :
    (f : List ℕ) → map (λ (f : RawFork). f.epoch) (fork_parameters_into f).forks ≡ f
unfolding fork_parameters_into
fork_parameters_kept f = epochs_kept f

epochs_read :
    (raws : List RawFork) (epochs : List ℕ)
    → Forall₂ HasFork raws epochs
    → map (λ (f : RawFork). f.epoch) raws ≡ epochs
epochs_read _ _ Forall₂.nil = refl
epochs_read _ _ (Forall₂.cons {a} {b} h hs) = rw (h.epoch, epochs_read _ _ hs) refl

pub local-IsLawful : IsLawful
local-IsLawful = record {
  from_slice_total = hash_total;
  from_slice-as_bytes = λ h. refl;
  length-as_bytes = λ h. refl;
  address-bytes = λ a. refl;
  public_key_stable = first_stable;
  public_key_same = λ k l e. cc e;
  public_key_nonempty = λ k. refl;
  fraction_stable = fraction_stable;
  duration_stable = λ raw d e. refl;
  fork_parameters_stable = λ raw again f e h. ap success (epochs_read _ _ h.all_forks);
  height_eta = λ h. refl;
  revision_number-height_new = λ n h. refl;
  revision_height-height_new = λ n h. refl;
  time_range = instant_bound;
  time_from_parts = instant_from_parts_of;
  any_into-any_from = λ raw. refl;
}

pub local-IsCodec : IsCodec
local-IsCodec = record {
  decode-encode_client_state = decode-encode client_state;
  decode-encode_consensus_state = decode-encode consensus_state;
}

pub local-IsWritable : IsWritable
local-IsWritable = record {
  encode_client_state_total = λ m. (_, refl);
  encode_consensus_state_total = λ m. (_, refl);
  gen_state_id_total = λ a b. ((a, b), refl);
}
