-- ===== src/Tests/Coder.antt =====
-- Prefix codes on lists of numbers: a stand-in for `prost` that can be computed with.
use ethereum_elc.Base.{
  ℕ, zero, suc, ◌≡◌, refl, sym, Option, none, some, List, [], ◌∷◌, Result, success, failure, length,
}
use ethereum_elc.Std.{ℤ, pos, negsuc}

-- Each value is put in front of a list, and taken off it again.
pub record Coder {ℓ} (A : Type ℓ) : Type ℓ where
  pub put : A → List ℕ → List ℕ
  pub take : List ℕ → Option (A × List ℕ)
  pub take-put : (a : A) (rest : List ℕ) → take (put a rest) ≡ some (a, rest)

abbrev pub take_number : List ℕ → Option (ℕ × List ℕ)
take_number [] = none
take_number (n ∷ ns) = some (n, ns)

abbrev pub number : Coder ℕ
number = record { put = λ n rest. n ∷ rest; take = take_number; take-put = λ n rest. refl }

module _ {ℓ κ} {A : Type ℓ} {B : Type κ} where
  abbrev pub and_then : Option A → (A → Option B) → Option B
  and_then none f = none
  and_then (some a) f = f a

module _ {ℓ κ} {A : Type ℓ} {B : Type κ} (c : Coder A) (d : Coder B) where
  abbrev pub take_pair : List ℕ → Option ((A × B) × List ℕ)
  take_pair ns =
      and_then (c.take ns) λ (a, rest). and_then (d.take rest) λ (b, rest). some ((a, b), rest)

  pub take_pair-put :
      (p : A × B) (rest : List ℕ) → take_pair (c.put p.0 (d.put p.1 rest)) ≡ some (p, rest)
  take_pair-put p rest = rw (c.take-put p.0 (d.put p.1 rest), d.take-put p.1 rest) refl

  abbrev pub pair : Coder (A × B)
  pair = record {
    put = λ p rest. c.put p.0 (d.put p.1 rest);
    take = take_pair;
    take-put = take_pair-put;
  }

module _ {ℓ κ} {A : Type ℓ} {B : Type κ} (c : Coder A) (to : B → A) (from : A → B)
    (same : (b : B) → from (to b) ≡ b) where
  abbrev pub take_by : List ℕ → Option (B × List ℕ)
  take_by ns = and_then (c.take ns) (λ (a, rest). some (from a, rest))

  pub take_by-put : (b : B) (rest : List ℕ) → take_by (c.put (to b) rest) ≡ some (b, rest)
  take_by-put b rest = rw (c.take-put (to b) rest, same b) refl

  -- The values that another type's stand for.
  abbrev pub by : Coder B
  by = record { put = λ b. c.put (to b); take = take_by; take-put = take_by-put }

module _ {ℓ} {A : Type ℓ} (c : Coder A) where
  abbrev pub put_option : Option A → List ℕ → List ℕ
  put_option none rest = 0 ∷ rest
  put_option (some a) rest = 1 ∷ c.put a rest

  abbrev pub take_option : List ℕ → Option (Option A × List ℕ)
  take_option [] = none
  take_option (zero ∷ ns) = some (none, ns)
  take_option (suc n ∷ ns) = and_then (c.take ns) (λ (a, rest). some (some a, rest))

  pub take_option-put :
      (o : Option A) (rest : List ℕ) → take_option (put_option o rest) ≡ some (o, rest)
  take_option-put none rest = refl
  take_option-put (some a) rest = rw (c.take-put a rest) refl

  abbrev pub option : Coder (Option A)
  option = record { put = put_option; take = take_option; take-put = take_option-put }

  abbrev pub put_all : List A → List ℕ → List ℕ
  put_all [] rest = rest
  put_all (x ∷ xs) rest = c.put x (put_all xs rest)

  abbrev pub take_all : ℕ → List ℕ → Option (List A × List ℕ)
  take_all zero ns = some ([], ns)
  take_all (suc n) ns =
      and_then (c.take ns) λ (x, ns). and_then (take_all n ns) λ (xs, ns). some (x ∷ xs, ns)

  abbrev pub take_list : List ℕ → Option (List A × List ℕ)
  take_list [] = none
  take_list (n ∷ ns) = take_all n ns

  pub take_all-put :
      (xs : List A) (rest : List ℕ) → take_all (length xs) (put_all xs rest) ≡ some (xs, rest)
  take_all-put [] rest = refl
  take_all-put (x ∷ xs) rest = rw (c.take-put x (put_all xs rest), take_all-put xs rest) refl

  -- The length, then the items.
  abbrev pub list : Coder (List A)
  list = record {
    put = λ xs rest. length xs ∷ put_all xs rest;
    take = take_list;
    take-put = take_all-put;
  }

  abbrev pub encode : A → Result (Unit {0}) (List ℕ)
  encode a = success (c.put a [])

  abbrev pub all_taken : Option (A × List ℕ) → Result (Unit {0}) A
  all_taken (some (a, [])) = success a
  all_taken (some (a, n ∷ ns)) = failure tt
  all_taken none = failure tt

  abbrev pub decode : List ℕ → Result (Unit {0}) A
  decode ns = all_taken (c.take ns)

  pub decode-encode : (a : A) (ns : List ℕ) → encode a ≡ success ns → decode ns ≡ success a
  decode-encode a ns e = let same : c.put a [] ≡ ns = cc e in rw (sym same, c.take-put a []) refl

abbrev pub put_integer : ℤ → List ℕ → List ℕ
put_integer (pos n) rest = 0 ∷ n ∷ rest
put_integer (negsuc n) rest = 1 ∷ n ∷ rest

abbrev pub take_integer : List ℕ → Option (ℤ × List ℕ)
take_integer (zero ∷ n ∷ ns) = some (pos n, ns)
take_integer (suc s ∷ n ∷ ns) = some (negsuc n, ns)
take_integer _ = none

pub take_integer-put : (z : ℤ) (rest : List ℕ) → take_integer (put_integer z rest) ≡ some (z, rest)
take_integer-put (pos n) rest = refl
take_integer-put (negsuc n) rest = refl

abbrev pub integer : Coder ℤ
integer = record { put = put_integer; take = take_integer; take-put = take_integer-put }
