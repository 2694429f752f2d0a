-- ===== src/ProtoCompiler/Process.antt =====
-- A process of proto-compiler: the disk that it changes, the lines that it prints, and how it ends.
use ethereum_elc.Base.{ℕ, String, List, [], ◌∷◌, ◌++◌, Option, Result, success, failure}

-- What is at each path.
abbrev pub FileSystem : Type 0 → Type 0 → Type 0
FileSystem FilePath Node = FilePath → Option Node

-- A call that returned, one that panicked, or the end of the process with an exit status.
pub data Ended {ℓ} (A : Type ℓ) : Type ℓ where
  returned : A → Ended A
  panicked : Ended A
  exited : ℕ → Ended A

-- The disk, and the lines printed so far.
pub record World {ℓ} (Disk : Type ℓ) : Type ℓ where
  pub disk : Disk
  pub printed : List String

abbrev pub Io {ℓ κ} : Type ℓ → Type κ → Type (ℓ ⊔ κ)
Io Disk A = World Disk → Ended A × World Disk

module _ {ℓ κ} {Disk : Type ℓ} {A : Type κ} where
  abbrev pub continue_with {μ} :
      {B : Type μ} → (A → Io Disk B) → Ended A → World Disk → Ended B × World Disk
  continue_with f (returned a) w = f a w
  continue_with f panicked w = (panicked, w)
  continue_with f (exited status) w = (exited status, w)

  infixl 5 ◌>>=◌ ◌>>◌
  abbrev pub ◌>>=◌ {μ} : {B : Type μ} → Io Disk A → (A → Io Disk B) → Io Disk B
  ◌>>=◌ m f w = continue_with f (m w).0 (m w).1

  abbrev pub ◌>>◌ {μ} : {B : Type μ} → Io Disk A → Io Disk B → Io Disk B
  m >> k = m >>= λ _. k

  abbrev pub give : A → Io Disk A
  give a w = (returned a, w)

  -- A call of the file system, with its result.
  abbrev pub call {μ} : {E : Type μ} → (Disk → Result E A × Disk) → Io Disk (Result E A)
  call f w = (returned (f w.disk).0, record w { disk = (f w.disk).1 })

  -- `r.unwrap()`
  abbrev pub unwrap_or_panic {μ} : {E : Type μ} → Result E A → Io Disk A
  unwrap_or_panic (success a) w = (returned a, w)
  unwrap_or_panic (failure e) w = (panicked, w)

  -- `std::process::exit`
  abbrev pub exit : ℕ → Io Disk A
  exit status w = (exited status, w)

-- `println!`
abbrev pub print_line {ℓ} : {Disk : Type ℓ} → String → Io Disk (Unit {0})
print_line line w = (returned tt, record w { printed = w.printed ++ (line ∷ []) })

-- `b.f()`, the call of a builder's setter.
infixl 3 ◌▸◌
abbrev pub ◌▸◌ {ℓ κ} : {A : Type ℓ} {B : Type κ} → A → (A → B) → B
a ▸ f = f a
