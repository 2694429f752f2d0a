-- ===== src/Base/Panics.antt =====
-- Which blocks never panic, one rule for each way to build a block.
use mathlib.Core.Path.{refl}
use mathlib.Core.Logic.{◌≢◌}
use mathlib.Core.List.{List, [], ◌∷◌}
use mathlib.Core.Bool.{Bool, true, false}
use mathlib.Core.Option.{Option, none, some}
use ethereum_elc.Base.Results.{
  Result, success, failure, Outcome, ok, err, panic, ◌>>=◌, try_with, map_err, ok_or, reject_if,
  collect,
}

pub record NeverPanics {ℓ κ} {E : Type ℓ} {A : Type κ} (m : Outcome E A) : Type (ℓ ⊔ κ) where
  pub returns : m ≢ panic

pub NeverPanics-reject_if {ℓ} : {E : Type ℓ} (b : Bool) (e : E) → NeverPanics (reject_if b e)
NeverPanics-reject_if true e = record { returns = λ h. cc }
NeverPanics-reject_if false e = record { returns = λ h. cc }

module _ {ℓ κ} {E : Type ℓ} {A : Type κ} where
  pub NeverPanics-ok : (a : A) → NeverPanics {E = E} (ok a)
  NeverPanics-ok a = record { returns = λ h. cc }

  pub NeverPanics-err : (e : E) → NeverPanics {A = A} (err e)
  NeverPanics-err e = record { returns = λ h. cc }

  pub NeverPanics-ok_or : (o : Option A) (e : E) → NeverPanics (ok_or o e)
  NeverPanics-ok_or none e = record { returns = λ h. cc }
  NeverPanics-ok_or (some a) e = record { returns = λ h. cc }

module _ {ℓ κ μ} {E : Type ℓ} {F : Type κ} {A : Type μ} where
  pub NeverPanics-try_with : (g : E → F) (r : Result E A) → NeverPanics (try_with g r)
  NeverPanics-try_with g (success a) = record { returns = λ h. cc }
  NeverPanics-try_with g (failure e) = record { returns = λ h. cc }

  pub NeverPanics-map_err :
      (g : E → F) (m : Outcome E A) → NeverPanics m → NeverPanics (map_err g m)
  NeverPanics-map_err g (ok a) n = record { returns = λ h. cc }
  NeverPanics-map_err g (err e) n = record { returns = λ h. cc }
  NeverPanics-map_err g panic n = record { returns = λ h. n.returns refl }

module _ {ℓ κ μ} {E : Type ℓ} {A : Type κ} {B : Type μ} where
  pub NeverPanics-bind :
      (m : Outcome E A) (f : A → Outcome E B)
      → NeverPanics m
      → ((a : A) → NeverPanics (f a))
      → NeverPanics (m >>= f)
  NeverPanics-bind (ok a) f n k = k a
  NeverPanics-bind (err e) f n k = record { returns = λ h. cc }
  NeverPanics-bind panic f n k = record { returns = λ h. n.returns refl }

pub NeverPanics-collect {ℓ κ μ} :
    {E : Type ℓ} {A : Type κ} {B : Type μ} (f : A → Outcome E B) (xs : List A)
    → ((x : A) → NeverPanics (f x))
    → NeverPanics (collect f xs)
unfolding collect
NeverPanics-collect f [] n = NeverPanics-ok []
NeverPanics-collect f (x ∷ xs) n = NeverPanics-bind (f x) _ (n x) λ y.
    NeverPanics-bind (collect f xs) _ (NeverPanics-collect f xs n) λ ys. NeverPanics-ok (y ∷ ys)

pub ruleset panic_rules = (
  NeverPanics-ok, NeverPanics-err, NeverPanics-reject_if, NeverPanics-ok_or, NeverPanics-try_with,
  NeverPanics-map_err, NeverPanics-bind, NeverPanics-collect,
)
