-- ===== src/Base/Results.antt =====
-- What a Rust function does: it returns a value, returns an error, or panics.
use mathlib.Core.Path.{◌≡◌, refl}
use mathlib.Core.Option.{Option, none, some}
use mathlib.Core.List.{List, [], ◌∷◌, map}
use mathlib.Core.Bool.{Bool, true, false}

-- The `Result` of another crate, which does not panic.
pub data Result {ℓ κ} (E : Type ℓ) (A : Type κ) : Type (ℓ ⊔ κ) where
  success : A → Result E A
  failure : E → Result E A

pub data Outcome {ℓ κ} (E : Type ℓ) (A : Type κ) : Type (ℓ ⊔ κ) where
  ok : A → Outcome E A
  err : E → Outcome E A
  panic : Outcome E A

infixl 5 ◌>>=◌ ◌>>◌
abbrev pub ◌>>=◌ {ℓ κ μ} :
    {E : Type ℓ} {A : Type κ} {B : Type μ} → Outcome E A → (A → Outcome E B) → Outcome E B
ok a >>= f = f a
err e >>= f = err e
panic >>= f = panic

abbrev pub ◌>>◌ {ℓ κ μ} :
    {E : Type ℓ} {A : Type κ} {B : Type μ} → Outcome E A → Outcome E B → Outcome E B
m >> k = m >>= λ _. k

-- `r.map_err(f)?`, or `r?` where `f` is the `From` of the error.
abbrev pub try_with {ℓ κ μ} :
    {E : Type ℓ} {F : Type κ} {A : Type μ} → (E → F) → Result E A → Outcome F A
try_with f (success a) = ok a
try_with f (failure e) = err (f e)

-- `?` where the called function is one of ours.
abbrev pub map_err {ℓ κ μ} :
    {E : Type ℓ} {F : Type κ} {A : Type μ} → (E → F) → Outcome E A → Outcome F A
map_err f (ok a) = ok a
map_err f (err e) = err (f e)
map_err f panic = panic

-- `o.ok_or(e)?`
abbrev pub ok_or {ℓ κ} : {E : Type ℓ} {A : Type κ} → Option A → E → Outcome E A
ok_or (some a) e = ok a
ok_or none e = err e

-- `o.unwrap()`, and the calls that are documented to panic.
abbrev pub unwrap {ℓ κ} : {E : Type ℓ} {A : Type κ} → Option A → Outcome E A
unwrap (some a) = ok a
unwrap none = panic

-- `r.unwrap()` and `r.expect(_)`
abbrev pub expect {ℓ κ μ} : {E : Type ℓ} {F : Type κ} {A : Type μ} → Result F A → Outcome E A
expect (success a) = ok a
expect (failure e) = panic

-- `if c { return Err(e) }`
abbrev pub reject_if {ℓ} : {E : Type ℓ} → Bool → E → Outcome E (Unit {0})
reject_if true e = err e
reject_if false e = ok tt

-- `for x in xs { out.push(f(x)?) }` with `out` empty at first.
unfoldable pub collect {ℓ κ μ} :
    {E : Type ℓ} {A : Type κ} {B : Type μ} → (A → Outcome E B) → List A → Outcome E (List B)
collect f [] = ok []
collect f (x ∷ xs) = f x >>= λ y. collect f xs >>= λ ys. ok (y ∷ ys)

-- Inversion of a block that returned: its first step did, and then the rest.
pub >>=-eq-ok {ℓ κ μ} :
    {E : Type ℓ} {A : Type κ} {B : Type μ} (first : Outcome E A) (rest : A → Outcome E B)
    {result : B}
    → (first >>= rest) ≡ ok result
    → (value : A) × (first ≡ ok value) × (rest value ≡ ok result)
>>=-eq-ok (ok value) rest returned = (value, refl, returned)
>>=-eq-ok (err reason) rest returned = cc
>>=-eq-ok panic rest returned = cc

pub map_err-bind-eq-ok {ℓ κ μ ν} :
    {E : Type ℓ} {F : Type κ} {A : Type μ} {B : Type ν} (convert : E → F) (first : Outcome E A)
    (rest : A → Outcome F B) {result : B}
    → (map_err convert first >>= rest) ≡ ok result
    → (value : A) × (first ≡ ok value) × (rest value ≡ ok result)
map_err-bind-eq-ok convert (ok value) rest returned = (value, refl, returned)
map_err-bind-eq-ok convert (err reason) rest returned = cc
map_err-bind-eq-ok convert panic rest returned = cc

pub try_with-bind-eq-ok {ℓ κ μ ν} :
    {E : Type ℓ} {F : Type κ} {A : Type μ} {B : Type ν} (convert : E → F) (first : Result E A)
    (rest : A → Outcome F B) {result : B}
    → (try_with convert first >>= rest) ≡ ok result
    → (value : A) × (first ≡ success value) × (rest value ≡ ok result)
try_with-bind-eq-ok convert (success value) rest returned = (value, refl, returned)
try_with-bind-eq-ok convert (failure reason) rest returned = cc

-- Each result of the loop is the result at its item, in the items' order.
pub collect-map {ℓ κ μ ν} :
    {E : Type ℓ} {A : Type κ} {B : Type μ} {D : Type ν} (f : A → Outcome E B) (g : B → D)
    (h : A → D)
    → ((x : A) (y : B) → f x ≡ ok y → g y ≡ h x)
    → (xs : List A) {ys : List B} → collect f xs ≡ ok ys
    → map g ys ≡ map h xs
unfolding collect
collect-map f g h same [] {ys = []} e = refl
collect-map f g h same [] {ys = y ∷ ys} e = cc
collect-map f g h same (x ∷ xs) {ys} e =
    let (y, p, e) = >>=-eq-ok (f x) _ e in
    let (rest, q, e) = >>=-eq-ok (collect f xs) _ e in cc (same x y p, collect-map f g h same xs q)
