-- ===== src/UnitTests.antt =====
-- The unit tests of light-client/src, as runs that return or panic: what the tests have in common.
pub mod Fixtures
pub mod States
pub mod ClientStates
pub mod ConsensusStates
pub mod StateIds
pub mod Messages
pub mod MockHost
pub mod Calls
pub mod Evidence
pub mod Updates
use ethereum_elc.Base.{
  ◌≡◌, refl, ℕ, zero, suc, Bool, true, false, decided, List, [], ◌∷◌, Outcome, ok, err, panic,
  ◌>>=◌, ◌>>◌,
}

-- A test returns nothing; a failed assertion and an `unwrap` that finds nothing are panics.
abbrev pub TestRun : Type 0 → Type 0
TestRun A = Outcome ⊥ A

abbrev pub assert : Bool → TestRun (Unit {0})
assert true = ok tt
assert false = panic

-- `assert_eq!`, by the type's equality.
abbrev pub assert_eq : {A : Type 0} → Discrete A → A → A → TestRun (Unit {0})
assert_eq dec a b = assert (decided (dec a b))

-- `r.unwrap()`, `r.unwrap_err()`, `r.is_ok()` and `r.is_err()`, on what one of our functions did.
abbrev pub unwrap_ok : {E A : Type 0} → Outcome E A → TestRun A
unwrap_ok (ok a) = ok a
unwrap_ok (err e) = panic
unwrap_ok panic = panic

abbrev pub unwrap_err : {E A : Type 0} → Outcome E A → TestRun E
unwrap_err (ok a) = panic
unwrap_err (err e) = ok e
unwrap_err panic = panic

abbrev pub assert_ok : {E A : Type 0} → Outcome E A → TestRun (Unit {0})
assert_ok r = unwrap_ok r >> ok tt

abbrev pub assert_err : {E A : Type 0} → Outcome E A → TestRun (Unit {0})
assert_err r = unwrap_err r >> ok tt

-- `vec![x; n]`
abbrev pub replicate : {A : Type 0} → ℕ → A → List A
replicate zero x = []
replicate (suc n) x = x ∷ replicate n x

-- `for x in xs { f(x) }`
abbrev pub for_each : {A : Type 0} → List A → (A → TestRun (Unit {0})) → TestRun (Unit {0})
for_each [] f = ok tt
for_each (x ∷ xs) f = f x >> for_each xs f

-- `cargo test`
abbrev pub run_tests : List (TestRun (Unit {0})) → TestRun (Unit {0})
run_tests tests = for_each tests λ test. test

pub decided_self {ℓ} : {A : Type ℓ} (dec : Discrete A) (a : A) → decided (dec a a) ≡ true
decided_self dec a = elim (dec a a) as (λ d. decided d ≡ true) [
  | yes p ↦ refl
  | no n ↦ absurd (n refl)
]
