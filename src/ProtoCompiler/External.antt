-- ===== src/ProtoCompiler/External.antt =====
-- The crates that proto-compiler calls: std::path, std::fs, walkdir, tonic_build and argh.
use ethereum_elc.Base.{String, Bool, List, Option, Result}
use ethereum_elc.ProtoCompiler.Process.{FileSystem}

-- `std::path` and `std::fs`. A call of `std::fs` takes the disk and gives it back changed.
pub record Files : Type 1 where
  pub FilePath : Type 0
  pub OsString : Type 0
  pub Node : Type 0
  pub IoError : Type 0
  pub path_of : String → FilePath
  pub display : FilePath → String
  pub debug_path : FilePath → String
  -- `{:?}` of a `String`
  pub debug : String → String
  pub extension : FilePath → Option OsString
  pub os_string_eq : OsString → String → Bool
  pub remove_dir_all :
      FilePath → FileSystem FilePath Node → Result IoError (Unit {0}) × FileSystem FilePath Node
  pub create_dir_all :
      FilePath → FileSystem FilePath Node → Result IoError (Unit {0}) × FileSystem FilePath Node

-- `walkdir`: the entries below a path, in the order of the walk; an entry may be an error.
pub record Walk (F : Files) : Type 1 where
  pub WalkError : Type 0
  pub DirEntry : Type 0
  pub walk_dir : F.FilePath → FileSystem F.FilePath F.Node → List (Result WalkError DirEntry)
  pub is_file : DirEntry → Bool
  pub entry_path : DirEntry → F.FilePath

-- `tonic_build`: the builder, its setters, and the run of the generator.
pub record TonicBuild (F : Files) : Type 1 where
  pub Builder : Type 0
  pub CompileError : Type 0
  pub configure : Builder
  pub build_client : Bool → Builder → Builder
  pub build_server : Bool → Builder → Builder
  pub compile_well_known_types : Bool → Builder → Builder
  pub out_dir : F.FilePath → Builder → Builder
  pub extern_path : String → String → Builder → Builder
  pub compile :
      Builder
      → (protos includes : List F.FilePath) → FileSystem F.FilePath F.Node
      → Result CompileError (Unit {0}) × FileSystem F.FilePath F.Node
  pub error_to_string : CompileError → String

-- All of them, with the directory of the crate that cargo writes into the program.
pub record Tools : Type 1 where
  pub files : Files
  pub open files use *
  pub walk : Walk files
  pub open walk use *
  pub generator : TonicBuild files
  pub open generator use *
  pub cargo_manifest_dir : String
