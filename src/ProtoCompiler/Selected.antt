-- ===== src/ProtoCompiler/Selected.antt =====
-- proto-compiler/src/cmd/compile.rs: which files of the walk are handed to the generator.
use mathlib.Core.List.{Mem, filter_map, mem-filter_map}
use mathlib.Core.Logic.{∥∥₁_map}
use ethereum_elc.Base.{
  ◌≡◌, refl, ◌↔◌, ◌⊎◌, inl, inr, true, ◌&&◌, List, [], ◌∷◌, Option, none, some, Result, success,
  failure, if◌then◌else◌, arith,
}
use ethereum_elc.ProtoCompiler.External.{Tools}
use ethereum_elc.ProtoCompiler.{has_proto_extension, select_protos}

Option-cases {ℓ} : {A : Type ℓ} (o : Option A) → (o ≡ none) ⊎ ((a : A) × (o ≡ some a))
Option-cases none = inl refl
Option-cases (some a) = inr (a, refl)

module _ ⦃T : Tools⦄ where
  open T use {FilePath, OsString, extension, os_string_eq, WalkError, DirEntry, is_file, entry_path}

  -- An item of the walk that is no error, and a regular file with the extension `proto`.
  pub record Yields (item : Result WalkError DirEntry) (path : FilePath) : Type 0 where
    pub entry : DirEntry
    pub walked : item ≡ success entry
    pub file : is_file entry ≡ true
    pub at_path : entry_path entry ≡ path
    pub suffix : OsString
    pub has_suffix : extension path ≡ some suffix
    pub suffix_proto : os_string_eq suffix "proto" ≡ true

  proto_file : Result WalkError DirEntry → Option FilePath
  unfolding has_proto_extension
  proto_file (failure e) = none
  proto_file (success e) =
      if is_file e && has_proto_extension (entry_path e) then some (entry_path e) else none

  select_protos-eq-filter_map :
      (items : List (Result WalkError DirEntry)) → select_protos items ≡ filter_map proto_file items
  unfolding select_protos proto_file filter_map
  select_protos-eq-filter_map [] = refl
  select_protos-eq-filter_map (failure e ∷ items) = select_protos-eq-filter_map items
  select_protos-eq-filter_map (success e ∷ items) =
      ground (arith, select_protos-eq-filter_map items)

  proto_file-Yields :
      (item : Result WalkError DirEntry) (path : FilePath)
      → proto_file item ≡ some path
      → Yields item path
  unfolding proto_file has_proto_extension
  proto_file-Yields (failure e) path h = cc
  proto_file-Yields (success e) path h = elim (Option-cases (extension (entry_path e))) [
    | inl missing ↦ ground arith
    | inr (suffix, found) ↦ record {
      entry = e;
      walked = refl;
      file = ground arith;
      at_path = ground arith;
      suffix = suffix;
      has_suffix = ground arith;
      suffix_proto = ground arith;
    }
  ]

  Yields-proto_file :
      (item : Result WalkError DirEntry) (path : FilePath)
      → Yields item path
      → proto_file item ≡ some path
  unfolding proto_file
  Yields-proto_file item path y = ground arith

  -- A path is among those handed to the generator exactly if some item of the walk is no error, is
  -- a regular file, has that path, and the path has the extension proto.
  pub mem-select_protos :
      (items : List (Result WalkError DirEntry)) (path : FilePath)
      → Mem path (select_protos items)
        ↔ ∥ ((item : Result WalkError DirEntry) × Mem item items × Yields item path) ∥₁
  mem-select_protos items path = rw (select_protos-eq-filter_map items) (
    λ m.
        ∥∥₁_map ((mem-filter_map proto_file items).0 m)
          λ (item, walked, e). (item, walked, proto_file-Yields item path e),
    λ m.
        (mem-filter_map proto_file items).1
          (∥∥₁_map m λ (item, walked, y). (item, walked, Yields-proto_file item path y)),
  )
