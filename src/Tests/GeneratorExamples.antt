-- ===== src/Tests/GeneratorExamples.antt =====
-- Runs of proto-compiler, and its theorems at a disk with old output.
use ethereum_elc.Base.{
  ◌≡◌, ◌≢◌, ◌↔◌, refl, String, Bool, true, false, ◌&&◌, str_eq, none, some, List, [], ◌∷◌, Result,
  success, if◌then◌else◌, arith,
}
use ethereum_elc.ProtoCompiler.Process.{World, Ended, returned, panicked, exited}
use ethereum_elc.ProtoCompiler.External.{Tools}
use ethereum_elc.ProtoCompiler.Laws.{Settings}
use ethereum_elc.ProtoCompiler.{
  Disk, compile_command, compile_protos, find_protos, show_protos, report, select_protos,
  configured, main,
}
use ethereum_elc.ProtoCompiler.Ends.{created, generated}
use ethereum_elc.ProtoCompiler.ExitStatus.{compile_protos_ended}
use ethereum_elc.ProtoCompiler.Handed.{IsHanded, include_dirs, compile_protos-IsHanded}
use ethereum_elc.ProtoCompiler.Rerun.{
  compile_protos_keeps, compile_protos_agree, compile_protos_twice,
}
use ethereum_elc.Tests.Workshop.{
  workshop, generate, is_prefix, workshop-IsLawfulDisk as lawful_disk,
  workshop-IsLawfulBuilder as lawful_builder,
}

abbrev here : Tools
here = workshop

abbrev definitions : String
definitions = "root/../proto/definitions"

-- Two definitions, one of them no Protobuf file, and the output of an earlier run.
abbrev before : Disk ⦃T = here⦄
before [] = some "dir"
before (a ∷ []) = if str_eq a "out" then some "dir" else none
before (a ∷ b ∷ []) =
    if str_eq a definitions && str_eq b "a.proto"
    then some "message A"
    else if str_eq a definitions && str_eq b "b.txt"
    then some "notes"
    else if str_eq a "out" && str_eq b "old.rs"
    then some "stale"
    else none
before (a ∷ b ∷ c ∷ path) = none

abbrev start : Disk ⦃T = here⦄ → World (Disk ⦃T = here⦄)
start disk = record { disk = disk; printed = [] }

abbrev out : List String
out = "out" ∷ []

run : World (Disk ⦃T = here⦄) → Ended (Unit {0}) × World (Disk ⦃T = here⦄)
unfolding compile_protos find_protos show_protos select_protos configured report
run = compile_protos ⦃T = here⦄ ("ibc" ∷ []) ("elct" ∷ []) out

run_returns :
    ((run (start before)).0 ≡ returned tt)
    × ((run (start before)).1.printed
        ≡ "[info ] Compiling ethereum-elc .proto files to Rust into 'out/'..."
          ∷ "Looking for proto files in \"root/../proto/definitions\""
          ∷ "Found the following protos:" ∷ "\t-> root/../proto/definitions/a.proto/"
          ∷ "[info ] Compiling.." ∷ "Successfully compiled proto files" ∷ [])
    × ((run (start before)).1.disk ("out" ∷ "old.rs" ∷ []) ≡ none)
    × ((run (start before)).1.disk ("out" ∷ "out.rs" ∷ []) ≡ some "generated")
unfolding run
run_returns = (refl, refl, refl, refl)

-- With no definitions the generator fails, and a bad name stops the run at once.
run_exits : (run (start λ path. none)).0 ≡ exited 1
unfolding run
run_exits = refl

main_panics :
    (main ⦃T = here⦄
      (returned (record {
        cmd = compile_command (record {
          ibc = "ibc" ∷ [];
          ethereum_light_client_types = "elct" ∷ [];
          out = "?" ∷ [];
        });
      }))
      (start before)).0
    ≡ panicked
unfolding main
main_panics = refl

-- `--help`: argh has ended the process.
main_help : main ⦃T = here⦄ (exited 0) (start before) ≡ (exited 0, start before)
unfolding main
main_help = refl

abbrev elct : List String
elct = "elct" ∷ []

abbrev ibc : List String
ibc = "ibc" ∷ []

compile_protos_ended_example :
    let ended = (compile_protos ⦃T = here⦄ ibc elct out (start before)).0 in
    let (made, disk) = created ⦃T = here⦄ out before in
    let compiled = (generated ⦃T = here⦄ ibc elct out disk).0 in
    ((ended ≡ panicked) ↔ (made ≢ success tt))
    × ((ended ≡ exited 1) ↔ ((made ≡ success tt) × (compiled ≢ success tt)))
    × ((ended ≡ returned tt) ↔ ((made ≡ success tt) × (compiled ≡ success tt)))
compile_protos_ended_example = compile_protos_ended ⦃T = here⦄ ibc elct out (start before)

abbrev walked : List (Result String (List String × Bool))
walked = here.walk_dir (definitions ∷ []) before

abbrev found : List String
found = definitions ∷ "a.proto" ∷ []

compile_protos_keeps_example :
    (compile_protos ⦃T = here⦄ ibc elct out (start before)).1.disk found ≡ some "message A"
compile_protos_keeps_example =
    compile_protos_keeps ⦃T = here⦄ lawful_disk lawful_builder ibc elct out (start before) found
      refl (λ h. cc)

-- The same disk without the old output.
abbrev fresh : Disk ⦃T = here⦄
fresh path = if is_prefix out path then none else before path

is_removed :
    (disk : Disk ⦃T = here⦄) (path : List String)
    → is_prefix out path ≡ true
    → (here.remove_dir_all out disk).1 path ≡ none
is_removed disk path inside = rw inside

fresh-before : (path : List String) → is_prefix out path ≡ false → before path ≡ fresh path
fresh-before path outside = rw outside

compile_protos_agree_example : run (start before) ≡ run (start fresh)
unfolding run
compile_protos_agree_example =
    compile_protos_agree ⦃T = here⦄ lawful_disk lawful_builder ibc elct out (start before)
      (start fresh) refl fresh-before (is_removed before) (is_removed fresh)

out_parents :
    (path : List String)
    → is_prefix out path ≡ false
    → is_prefix path out ≡ true
    → before path ≢ none
out_parents [] outside parent = λ h. cc
out_parents (a ∷ []) outside parent = ground arith
out_parents (a ∷ b ∷ path) outside parent = absurd (ground arith)

compile_protos_twice_example : run (start (run (start before)).1.disk) ≡ run (start before)
unfolding run
compile_protos_twice_example =
    compile_protos_twice ⦃T = here⦄ lawful_disk lawful_builder ibc elct out before out_parents
      (is_removed before) (is_removed _)

-- The disk with the new output directory.
abbrev with_output : Disk ⦃T = here⦄
with_output = (created ⦃T = here⦄ out before).1

compile_protos-IsHanded_example :
    (builder : Settings (List String)) × (protos : List (List String)) × IsHanded ⦃T = here⦄
      (λ b. b)
      out
      with_output
      builder
      protos
    × ((compile_protos ⦃T = here⦄ ibc elct out (start before)).1.disk
        ≡ (generate builder protos (include_dirs ⦃T = here⦄ ibc elct) with_output).1)
    × (((compile_protos ⦃T = here⦄ ibc elct out (start before)).0 ≡ returned tt)
        ↔ ((generate builder protos (include_dirs ⦃T = here⦄ ibc elct) with_output).0 ≡ success tt))
compile_protos-IsHanded_example =
    compile_protos-IsHanded ⦃T = here⦄ lawful_builder ibc elct out (start before) with_output refl
