-- ===== src/ProtoCompiler.antt =====
-- proto-compiler/src/cmd/compile.rs and proto-compiler/src/main.rs: the command that generates the
-- Rust sources of the `proto` crate from the Protobuf definitions.
pub mod Process
pub mod External
pub mod Laws
pub mod Ends
pub mod ExitStatus
pub mod Selected
pub mod Configured
pub mod Rerun
pub mod Handed
use ethereum_elc.Base.{
  ℕ, String, ◌<>◌, Bool, true, false, ◌&&◌, List, [], ◌∷◌, ◌++◌, map, none, some, Result, success,
  failure, if◌then◌else◌,
}
use ethereum_elc.ProtoCompiler.Process.{
  FileSystem, Ended, Io, continue_with, ◌▸◌, ◌>>=◌, ◌>>◌, give, call, unwrap_or_panic, exit,
  print_line,
}
use ethereum_elc.ProtoCompiler.External.{Tools}

module _ ⦃T : Tools⦄ where
  open T use {
    FilePath, OsString, Node, IoError, path_of, display, debug_path, debug, extension, os_string_eq,
    remove_dir_all, create_dir_all, WalkError, DirEntry, walk_dir, is_file, entry_path, Builder,
    CompileError, configure, build_client, build_server, compile_well_known_types, out_dir,
    extern_path, compile, error_to_string, cargo_manifest_dir,
  }

  abbrev pub Disk : Type 0
  Disk = FileSystem FilePath Node

  pub record CompileCmd : Type 0 where
    pub ibc : FilePath
    pub ethereum_light_client_types : FilePath
    pub out : FilePath

  pub data Command : Type 0 where
    compile_command : CompileCmd → Command

  pub record App : Type 0 where
    pub cmd : Command

  -- The test of the extension; `extension().unwrap()` stands behind `is_some()`.
  has_proto_extension : FilePath → Bool
  has_proto_extension path = elim (extension path) [
    | none ↦ false
    | some e ↦ os_string_eq e "proto"
  ]

  -- The chain of `filter_map`, `filter` and `map` over the walk.
  unfoldable pub select_protos : List (Result WalkError DirEntry) → List FilePath
  unfolding has_proto_extension
  select_protos [] = []
  select_protos (failure e ∷ entries) = select_protos entries
  select_protos (success e ∷ entries) =
      let rest = select_protos entries in
      if is_file e && has_proto_extension (entry_path e) then entry_path e ∷ rest else rest

  -- `for proto_path in &proto_paths`
  unfoldable pub find_protos : List String → List FilePath → Io Disk (List FilePath)
  find_protos [] protos = give protos
  find_protos (path ∷ paths) protos = do
    print_line ("Looking for proto files in " <> debug path)
    λ w. find_protos paths (protos ++ select_protos (walk_dir (path_of path) w.disk)) w

  -- `for proto in &protos`
  unfoldable pub show_protos : List FilePath → Io Disk (Unit {0})
  show_protos [] = give tt
  show_protos (proto ∷ protos) = do print_line ("\t-> " <> debug_path proto); show_protos protos

  abbrev pub proto_paths : List String
  proto_paths = (cargo_manifest_dir <> "/../proto/definitions") ∷ []

  abbrev pub proto_includes_paths : (ibc_dir elct_dir : FilePath) → List String
  proto_includes_paths ibc_dir elct_dir =
      (cargo_manifest_dir <> "/../proto/definitions")
      ∷ (display elct_dir <> "/proto/definitions")
      ∷ (display ibc_dir <> "/proto")
      ∷ (display ibc_dir <> "/third_party/proto")
      ∷ []

  -- The builder with its setters, in the source's order.
  unfoldable pub configured : FilePath → Builder
  configured out =
      configure
      ▸ build_client false
      ▸ build_server false
      ▸ compile_well_known_types true
      ▸ out_dir out
      ▸ extern_path ".ibc.core.client.v1" "::ibc_proto::ibc::core::client::v1"
      ▸ extern_path ".cosmos.upgrade.v1beta1" "::ibc_proto::cosmos::upgrade::v1beta1"
      ▸ extern_path ".ibc.lightclients.ethereum.v1.TrustedSyncCommittee"
          "::ethereum_light_client_proto::ibc::lightclients::ethereum::v1::TrustedSyncCommittee"
      ▸ extern_path ".ibc.lightclients.ethereum.v1.ForkParameters"
          "::ethereum_light_client_proto::ibc::lightclients::ethereum::v1::ForkParameters"
      ▸ extern_path ".ibc.lightclients.ethereum.v1.Fraction"
          "::ethereum_light_client_proto::ibc::lightclients::ethereum::v1::Fraction"
      ▸ extern_path ".ibc.lightclients.ethereum.v1.Fork"
          "::ethereum_light_client_proto::ibc::lightclients::ethereum::v1::Fork"
      ▸ extern_path ".ibc.lightclients.ethereum.v1.ForkSpec"
          "::ethereum_light_client_proto::ibc::lightclients::ethereum::v1::ForkSpec"
      ▸ extern_path ".ibc.lightclients.ethereum.v1.ConsensusUpdate"
          "::ethereum_light_client_proto::ibc::lightclients::ethereum::v1::ConsensusUpdate"
      ▸ extern_path ".ibc.lightclients.ethereum.v1.SyncCommittee"
          "::ethereum_light_client_proto::ibc::lightclients::ethereum::v1::SyncCommittee"
      ▸ extern_path ".ibc.lightclients.ethereum.v1.SyncAggregate"
          "::ethereum_light_client_proto::ibc::lightclients::ethereum::v1::SyncAggregate"
      ▸ extern_path ".ibc.lightclients.ethereum.v1.ExecutionUpdate"
          "::ethereum_light_client_proto::ibc::lightclients::ethereum::v1::ExecutionUpdate"
      ▸ extern_path ".ibc.lightclients.ethereum.v1.AccountUpdate"
          "::ethereum_light_client_proto::ibc::lightclients::ethereum::v1::AccountUpdate"
      ▸ extern_path ".ibc.lightclients.ethereum.v1.BeaconBlockHeader"
          "::ethereum_light_client_proto::ibc::lightclients::ethereum::v1::BeaconBlockHeader"

  -- `match compilation`
  unfoldable pub report : Result CompileError (Unit {0}) → Io Disk (Unit {0})
  report (success done) = print_line "Successfully compiled proto files"
  report (failure e) = do print_line ("Failed to compile:" <> debug (error_to_string e)); exit 1

  unfoldable pub compile_protos : (ibc_dir elct_dir out : FilePath) → Io Disk (Unit {0})
  compile_protos ibc_dir elct_dir out = do
    call (remove_dir_all out)
    created ← call (create_dir_all out)
    unwrap_or_panic created
    print_line
        ("[info ] Compiling ethereum-elc .proto files to Rust into '" <> display out <> "'...")
    protos ← find_protos proto_paths []
    print_line "Found the following protos:"
    show_protos protos
    print_line "[info ] Compiling.."
    let includes = map path_of (proto_includes_paths ibc_dir elct_dir)
    compilation ← call (compile (configured out) protos includes)
    report compilation

  -- `CompileCmd::run`
  abbrev pub compile_run : CompileCmd → Io Disk (Unit {0})
  compile_run c = compile_protos c.ibc c.ethereum_light_client_types c.out

  abbrev command_run : Command → Io Disk (Unit {0})
  command_run (compile_command c) = compile_run c

  -- `main`, with what `argh::from_env` made of the arguments.
  unfoldable pub main : Ended App → Io Disk (Unit {0})
  unfolding compile_protos
  main parsed w = continue_with (λ app. command_run app.cmd) parsed w
