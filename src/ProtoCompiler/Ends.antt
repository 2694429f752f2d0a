-- ===== src/ProtoCompiler/Ends.antt =====
-- proto-compiler/src/cmd/compile.rs: how a run ends, and what it leaves on the disk.
use mathlib.Core.List.{append-nil, append_assoc}
use ethereum_elc.Base.{
  ◌≡◌, ◌⊎◌, inl, inr, refl, List, [], ◌∷◌, map, Result, success, failure, String, ◌<>◌, ◌++◌, ◌∙◌,
}
use ethereum_elc.ProtoCompiler.Process.{World, Ended, returned, panicked}
use ethereum_elc.ProtoCompiler.External.{Tools}
use ethereum_elc.ProtoCompiler.{
  Disk, select_protos, find_protos, show_protos, proto_paths, proto_includes_paths, configured,
  report, compile_protos,
}

pub Result-cases {ℓ κ} :
    {E : Type ℓ} {A : Type κ} (r : Result E A)
    → ((e : E) × (r ≡ failure e)) ⊎ ((a : A) × (r ≡ success a))
Result-cases (failure e) = inl (e, refl)
Result-cases (success a) = inr (a, refl)

module _ ⦃T : Tools⦄ where
  open T use {
    FilePath, path_of, remove_dir_all, create_dir_all, walk_dir, compile, IoError, CompileError,
    debug, debug_path, display,
  }

  -- The disk with a new output directory.
  abbrev pub cleared : FilePath → Disk → Disk
  cleared out disk = (remove_dir_all out disk).1

  abbrev pub created : FilePath → Disk → Result IoError (Unit {0}) × Disk
  created out disk = create_dir_all out (cleared out disk)

  -- The files that a run hands to the generator.
  unfoldable pub find_all : List String → Disk → List FilePath
  find_all [] disk = []
  find_all (path ∷ paths) disk = select_protos (walk_dir (path_of path) disk) ++ find_all paths disk

  -- What the generator returns and leaves.
  abbrev pub generated :
      (ibc_dir elct_dir out : FilePath) → Disk → Result CompileError (Unit {0}) × Disk
  generated ibc_dir elct_dir out disk =
      compile (configured out) (find_all proto_paths disk)
        (map path_of (proto_includes_paths ibc_dir elct_dir)) disk

  abbrev pub looking_for : String → String
  looking_for path = "Looking for proto files in " <> debug path

  find_protos_lem :
      (paths : List String) (protos : List FilePath) (w : World Disk)
      → find_protos paths protos w ≡ (
        returned (protos ++ find_all paths w.disk),
        record w { printed = w.printed ++ map looking_for paths },
      )
  unfolding find_protos find_all
  find_protos_lem [] protos w = simp (append-nil)
  find_protos_lem (path ∷ paths) protos w =
      let found = select_protos (walk_dir (path_of path) w.disk) in
      let next = record w { printed = w.printed ++ (looking_for path ∷ []) } in
      find_protos_lem paths (protos ++ found) next ∙ simp (append_assoc)

  abbrev pub shown : FilePath → String
  shown proto = "\t-> " <> debug_path proto

  show_protos_lem :
      (protos : List FilePath) (w : World Disk)
      → show_protos protos w ≡ (returned tt, record w { printed = w.printed ++ map shown protos })
  unfolding show_protos
  show_protos_lem [] w = simp (append-nil)
  show_protos_lem (proto ∷ protos) w =
      show_protos_lem protos (record w { printed = w.printed ++ (shown proto ∷ []) })
      ∙ simp (append_assoc)

  module _ (ibc_dir elct_dir out : FilePath) where
    -- The lines up to the run of the generator.
    abbrev pub progress : List FilePath → List String
    progress protos =
        ("[info ] Compiling ethereum-elc .proto files to Rust into '" <> display out <> "'...")
          ∷ map looking_for proto_paths
        ++ "Found the following protos:" ∷ []
        ++ map shown protos
        ++ "[info ] Compiling.." ∷ []

    -- The end of a run, by what came of making the output directory.
    unfoldable pub ends :
        List String → Disk → Result IoError (Unit {0}) → Ended (Unit {0}) × World Disk
    ends printed disk (failure e) = (panicked, record { disk = disk; printed = printed })
    ends printed disk (success done) =
        let (compiled, after) = generated ibc_dir elct_dir out disk in
        report compiled
          (record { disk = after; printed = printed ++ progress (find_all proto_paths disk) })

    pub compile_protos-ends :
        (w : World Disk)
        → compile_protos ibc_dir elct_dir out w
          ≡ ends w.printed (created out w.disk).1 (created out w.disk).0
    unfolding compile_protos ends
    compile_protos-ends w = elim (Result-cases (created out w.disk).0) [
      | inl (e, failed) ↦ rw failed
      | inr (done, made) ↦ rw made (simp (find_protos_lem, show_protos_lem, append_assoc))
    ]
