-- ===== src/ProtoCompiler/Handed.antt =====
-- proto-compiler/src/cmd/compile.rs: what a run hands to the generator.
use mathlib.Core.List.{Mem, append-nil}
use ethereum_elc.Base.{
  ◌≡◌, ◌↔◌, Bool, true, false, List, [], ◌∷◌, some, Result, success, ◌<>◌, arith,
}
use ethereum_elc.ProtoCompiler.Process.{World, returned}
use ethereum_elc.ProtoCompiler.External.{Tools}
use ethereum_elc.ProtoCompiler.Laws.{Settings, IsLawfulBuilder}
use ethereum_elc.ProtoCompiler.{
  Disk, compile_protos, configured, report, select_protos, proto_paths,
}
use ethereum_elc.ProtoCompiler.Ends.{find_all, created, ends, compile_protos-ends}
use ethereum_elc.ProtoCompiler.Configured.{foreign_items, settings-configured}
use ethereum_elc.ProtoCompiler.Selected.{Yields, mem-select_protos}

module _ ⦃T : Tools⦄ where
  open T use {
    FilePath, Builder, WalkError, DirEntry, path_of, walk_dir, compile, display, cargo_manifest_dir,
  }

  -- The four directories of definitions.
  abbrev pub include_dirs : (ibc_dir elct_dir : FilePath) → List FilePath
  include_dirs ibc_dir elct_dir =
      path_of (cargo_manifest_dir <> "/../proto/definitions")
      ∷ path_of (display elct_dir <> "/proto/definitions")
      ∷ path_of (display ibc_dir <> "/proto")
      ∷ path_of (display ibc_dir <> "/third_party/proto")
      ∷ []

  -- A run of the generator, with its builder and the definitions.
  pub record IsHanded (settings : Builder → Settings FilePath) (out : FilePath) (disk : Disk)
      (builder : Builder) (protos : List FilePath) : Type 0 where
    pub told : settings builder ≡ record {
      client = false;
      server = false;
      well_known_types = true;
      target = some out;
      externs = foreign_items;
    }
    pub chosen :
        (path : FilePath)
        → Mem path protos
          ↔ ∥ (
              (item : Result WalkError DirEntry) × Mem item
                (walk_dir (path_of (cargo_manifest_dir <> "/../proto/definitions")) disk)
              × Yields item path) ∥₁

  found-select_protos :
      (disk : Disk)
      → find_all proto_paths disk
        ≡ select_protos (walk_dir (path_of (cargo_manifest_dir <> "/../proto/definitions")) disk)
  unfolding find_all
  found-select_protos disk = append-nil _

  module _ {within : FilePath → FilePath → Bool} {settings : Builder → Settings FilePath}
      (B : IsLawfulBuilder within settings) (ibc_dir elct_dir out : FilePath) where
    -- If the output directory, once removed, is made, compile_protos leaves the disk that a run of
    -- the generator leaves, and returns exactly if that run succeeds. The builder of that run is
    -- told to make neither clients nor servers, to compile the well known types, to write into the
    -- output directory, and to take two packages from ibc_proto and eleven messages from
    -- ethereum_light_client_proto, each under the Rust path that has the segments of its Protobuf
    -- name. Its definitions are the paths of those items of the walk of proto/definitions, on the
    -- disk with the new directory, that are no errors, are regular files and have the extension
    -- proto; its include directories are the four of the source. This is for a builder whose
    -- setters change their own setting only.
    pub compile_protos-IsHanded :
        (w : World Disk) (disk : Disk)
        → created out w.disk ≡ (success tt, disk)
        → (builder : Builder) × (protos : List FilePath) × IsHanded settings out disk builder protos
          × ((compile_protos ibc_dir elct_dir out w).1.disk
              ≡ (compile builder protos (include_dirs ibc_dir elct_dir) disk).1)
          × (((compile_protos ibc_dir elct_dir out w).0 ≡ returned tt)
              ↔ ((compile builder protos (include_dirs ibc_dir elct_dir) disk).0 ≡ success tt))
    unfolding ends report
    compile_protos-IsHanded w disk made = (
      configured out,
      find_all proto_paths disk,
      record {
        told = settings-configured B out;
        chosen = λ path. rw (found-select_protos disk) (mem-select_protos _ path);
      },
      rw (compile_protos-ends ibc_dir elct_dir out w, made) (ground arith),
      rw (compile_protos-ends ibc_dir elct_dir out w, made) (ground arith),
    )
