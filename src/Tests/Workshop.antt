-- ===== src/Tests/Workshop.antt =====
-- One implementation of what proto-compiler calls. A path is its components, and a disk has a text
-- at each; the walk looks for three names, and the generator writes one file.
use ethereum_elc.Base.{
  ◌≡◌, refl, String, ◌<>◌, Bool, true, false, ◌&&◌, not, str_eq, Option, none, some, List, [], ◌∷◌,
  ◌++◌, Result, success, failure, if◌then◌else◌, arith,
}
use ethereum_elc.ProtoCompiler.Process.{FileSystem}
use ethereum_elc.ProtoCompiler.External.{Tools, Files, Walk, TonicBuild}
use ethereum_elc.ProtoCompiler.Laws.{Settings, IsLawfulDisk, IsLawfulBuilder}

abbrev LocalPath : Type 0
LocalPath = List String

abbrev LocalDisk : Type 0
LocalDisk = FileSystem LocalPath String

-- The first path is the second or leads to it.
abbrev pub is_prefix : LocalPath → LocalPath → Bool
is_prefix [] path = true
is_prefix (a ∷ dir) [] = false
is_prefix (a ∷ dir) (b ∷ path) = str_eq a b && is_prefix dir path

abbrev is_some : Option String → Bool
is_some none = false
is_some (some text) = true

abbrev display : LocalPath → String
display [] = ""
display (a ∷ path) = a <> "/" <> display path

abbrev extension : LocalPath → Option String
extension [] = none
extension (a ∷ []) =
    if str_eq a "a.proto" then some "proto" else if str_eq a "b.txt" then some "txt" else none
extension (a ∷ b ∷ path) = extension (b ∷ path)

abbrev remove : LocalPath → LocalDisk → Result String (Unit {0}) × LocalDisk
remove dir disk = (success tt, λ path. if is_prefix dir path then none else disk path)

-- A component that no file can have.
abbrev creatable : LocalPath → Bool
creatable [] = true
creatable (a ∷ path) = not (str_eq a "?") && creatable path

abbrev create : LocalPath → LocalDisk → Result String (Unit {0}) × LocalDisk
create dir disk =
    if creatable dir
    then (
      success tt,
      λ path. if is_prefix path dir && not (is_some (disk path)) then some "dir" else disk path,
    )
    else (failure "bad name", disk)

abbrev files : Files
files = record {
  FilePath = LocalPath;
  OsString = String;
  Node = String;
  IoError = String;
  path_of = λ text. text ∷ [];
  display = display;
  debug_path = display;
  debug = λ text. "\"" <> text <> "\"";
  extension = extension;
  os_string_eq = str_eq;
  remove_dir_all = remove;
  create_dir_all = create;
}

-- The entry at a name, if there is one.
abbrev entry_at : LocalPath → LocalDisk → String → List (Result String (LocalPath × Bool))
entry_at dir disk name = elim (disk (dir ++ (name ∷ []))) [
  | none ↦ []
  | some text ↦ success (dir ++ (name ∷ []), not (str_eq text "dir")) ∷ []
]

abbrev walk : Walk files
walk = record {
  WalkError = String;
  DirEntry = LocalPath × Bool;
  walk_dir = λ dir disk.
      failure "unreadable"
      ∷ (entry_at dir disk "b.txt" ++ (entry_at dir disk "a.proto" ++ entry_at dir disk "sub"));
  is_file = λ entry. entry.1;
  entry_path = λ entry. entry.0;
}

abbrev pub write : LocalPath → LocalDisk → LocalDisk
write dir disk path =
    if is_prefix dir path
    then (if is_prefix (dir ++ ("out.rs" ∷ [])) path then some "generated" else disk path)
    else disk path

abbrev pub write_below : Option LocalPath → LocalDisk → LocalDisk
write_below none disk = disk
write_below (some dir) disk = write dir disk

-- No file to compile is an error here.
abbrev pub generate :
    Settings LocalPath
    → (protos includes : List LocalPath) → LocalDisk
    → Result String (Unit {0}) × LocalDisk
generate b [] includes disk = (failure "no files", disk)
generate b (proto ∷ protos) includes disk = (success tt, write_below b.target disk)

abbrev generator : TonicBuild files
generator = record {
  Builder = Settings LocalPath;
  CompileError = String;
  configure = record {
    client = true;
    server = true;
    well_known_types = false;
    target = none;
    externs = [];
  };
  build_client = λ v b. record b { client = v };
  build_server = λ v b. record b { server = v };
  compile_well_known_types = λ v b. record b { well_known_types = v };
  out_dir = λ dir b. record b { target = some dir };
  extern_path = λ proto rust b. record b { externs = b.externs ++ ((proto, rust) ∷ []) };
  compile = generate;
  error_to_string = λ e. e;
}

abbrev pub workshop : Tools
workshop = record { files = files; walk = walk; generator = generator; cargo_manifest_dir = "root" }

create-keeps :
    (dir path : LocalPath) (disk : LocalDisk)
    → (disk path ≡ none → ⊥)
    → (create dir disk).1 path ≡ disk path
create-keeps dir path disk there = ground arith

pub workshop-IsLawfulDisk : IsLawfulDisk ⦃T = workshop⦄ is_prefix
workshop-IsLawfulDisk = record {
  remove-keeps = λ dir path disk outside. ground arith;
  create-keeps = create-keeps;
  create-other = λ dir path disk apart. ground arith;
}

generate-keeps :
    (b : Settings LocalPath) (protos includes : List LocalPath) (disk : LocalDisk)
    (dir path : LocalPath)
    → b.target ≡ some dir
    → is_prefix dir path ≡ false
    → (generate b protos includes disk).1 path ≡ disk path
generate-keeps b [] includes disk dir path target outside = refl
generate-keeps b (proto ∷ protos) includes disk dir path target outside = rw target (rw outside)

pub workshop-IsLawfulBuilder : IsLawfulBuilder ⦃T = workshop⦄ is_prefix (λ b. b)
workshop-IsLawfulBuilder = record {
  externs-configure = refl;
  settings-build_client = λ v b. refl;
  settings-build_server = λ v b. refl;
  settings-compile_well_known_types = λ v b. refl;
  settings-out_dir = λ dir b. refl;
  settings-extern_path = λ proto rust b. refl;
  compile-keeps = generate-keeps;
}
