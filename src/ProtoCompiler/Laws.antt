-- ===== src/ProtoCompiler/Laws.antt =====
-- What proto-compiler relies on: the documentation of std::fs and of tonic_build.
use ethereum_elc.Base.{String, Bool, false, none, Option, some, List, [], ◌∷◌, ◌++◌, ◌≡◌, ◌≢◌}
use ethereum_elc.ProtoCompiler.External.{Tools}
use ethereum_elc.ProtoCompiler.{Disk}

-- What a builder has been told.
pub record Settings (FilePath : Type 0) : Type 0 where
  pub client : Bool
  pub server : Bool
  pub well_known_types : Bool
  pub target : Option FilePath
  pub externs : List (String × String)

module _ ⦃T : Tools⦄ where
  open T use {
    FilePath, remove_dir_all, create_dir_all, Builder, configure, build_client, build_server,
    compile_well_known_types, out_dir, extern_path, compile,
  }

  -- `within dir path`: the path is `dir` or lies below it.
  pub record IsLawfulDisk (within : FilePath → FilePath → Bool) : Type 0 where
    -- "Removes a directory at this path, after removing all its contents."
    pub remove-keeps :
        (dir path : FilePath) (disk : Disk)
        → within dir path ≡ false
        → (remove_dir_all dir disk).1 path ≡ disk path
    -- "Recursively create a directory and all of its parent components if they are missing."
    pub create-keeps :
        (dir path : FilePath) (disk : Disk)
        → disk path ≢ none
        → (create_dir_all dir disk).1 path ≡ disk path
    pub create-other :
        (dir path : FilePath) (disk : Disk)
        → within path dir ≡ false
        → (create_dir_all dir disk).1 path ≡ disk path

  -- Each setter changes its own setting; `extern_path` adds one entry behind the others. The
  -- generator writes below its target alone (the files that it makes for a while are gone when it
  -- returns).
  pub record IsLawfulBuilder (within : FilePath → FilePath → Bool)
      (settings : Builder → Settings FilePath) : Type 0 where
    pub externs-configure : (settings configure).externs ≡ []
    pub settings-build_client :
        (v : Bool) (b : Builder) → settings (build_client v b) ≡ record (settings b) { client = v }
    pub settings-build_server :
        (v : Bool) (b : Builder) → settings (build_server v b) ≡ record (settings b) { server = v }
    pub settings-compile_well_known_types :
        (v : Bool) (b : Builder)
        → settings (compile_well_known_types v b) ≡ record (settings b) { well_known_types = v }
    pub settings-out_dir :
        (dir : FilePath) (b : Builder)
        → settings (out_dir dir b) ≡ record (settings b) { target = some dir }
    pub settings-extern_path :
        (proto rust : String) (b : Builder)
        → settings (extern_path proto rust b)
          ≡ record (settings b) { externs = (settings b).externs ++ ((proto, rust) ∷ []) }
    pub compile-keeps :
        (b : Builder) (protos includes : List FilePath) (disk : Disk) (dir path : FilePath)
        → (settings b).target ≡ some dir
        → within dir path ≡ false
        → (compile b protos includes disk).1 path ≡ disk path
