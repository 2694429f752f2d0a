-- ===== src/ProtoCompiler/Configured.antt =====
-- proto-compiler/src/cmd/compile.rs: what the generator is told.
use mathlib.Core.List.{foldl}
use ethereum_elc.Base.{◌≡◌, Bool, true, false, some, List, [], ◌∷◌, map, String, ◌<>◌}
use ethereum_elc.ProtoCompiler.External.{Tools}
use ethereum_elc.ProtoCompiler.{configured}
use ethereum_elc.ProtoCompiler.Laws.{Settings, IsLawfulBuilder}

-- A name of Protobuf and its name in Rust, both from its parts.
abbrev dotted : List String → String
dotted parts = foldl (λ name part. name <> "." <> part) "" parts

abbrev coloned : List String → String
coloned parts = foldl (λ name part. name <> "::" <> part) "" parts

-- An item of Protobuf that a crate has generated.
abbrev taken_from : String → List String → String × String
taken_from crate parts = (dotted parts, coloned (crate ∷ parts))

abbrev ethereum_type : String → String × String
ethereum_type name =
    taken_from "ethereum_light_client_proto"
      ("ibc" ∷ "lightclients" ∷ "ethereum" ∷ "v1" ∷ name ∷ [])

-- What other crates have generated: two packages, and eleven messages of the light client.
pub foreign_items : List (String × String)
foreign_items =
    taken_from "ibc_proto" ("ibc" ∷ "core" ∷ "client" ∷ "v1" ∷ [])
    ∷ taken_from "ibc_proto" ("cosmos" ∷ "upgrade" ∷ "v1beta1" ∷ [])
    ∷ map ethereum_type (
        "TrustedSyncCommittee" ∷ "ForkParameters" ∷ "Fraction" ∷ "Fork" ∷ "ForkSpec"
        ∷ "ConsensusUpdate" ∷ "SyncCommittee" ∷ "SyncAggregate" ∷ "ExecutionUpdate"
        ∷ "AccountUpdate" ∷ "BeaconBlockHeader" ∷ [])

module _ ⦃T : Tools⦄ where
  open T use {FilePath, Builder}

  -- The generator is told to make neither clients nor servers, to compile the well known types, to
  -- write into the given directory, and to take thirteen items from other crates: two packages
  -- from ibc_proto and eleven messages from ethereum_light_client_proto, each under the Rust path
  -- that has the segments of its Protobuf name. This is for a builder whose setters change their
  -- own setting only.
  pub settings-configured :
      {within : FilePath → FilePath → Bool} {settings : Builder → Settings FilePath}
      (B : IsLawfulBuilder within settings) (out : FilePath)
      → settings (configured out) ≡ record {
        client = false;
        server = false;
        well_known_types = true;
        target = some out;
        externs = foreign_items;
      }
  unfolding configured foreign_items
  settings-configured B out = simp (
    B.settings-extern_path, B.settings-out_dir, B.settings-compile_well_known_types,
    B.settings-build_server, B.settings-build_client, B.externs-configure,
  )
