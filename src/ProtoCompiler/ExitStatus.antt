-- ===== src/ProtoCompiler/ExitStatus.antt =====
-- proto-compiler/src/cmd/compile.rs: the three ends of a run.
use ethereum_elc.Base.{◌≡◌, ◌≢◌, ◌↔◌, success, arith}
use ethereum_elc.ProtoCompiler.Process.{World, returned, panicked, exited}
use ethereum_elc.ProtoCompiler.External.{Tools}
use ethereum_elc.ProtoCompiler.{Disk, report, compile_protos}
use ethereum_elc.ProtoCompiler.Ends.{created, generated, ends, compile_protos-ends}

module _ ⦃T : Tools⦄ where
  open T use {FilePath}

  -- compile_protos panics exactly if the output directory, once removed, cannot be made; it exits
  -- with status 1 exactly if the directory was made and the generator fails on the files found; it
  -- returns exactly if both succeed. No other outcome of these calls, and no error of the removal,
  -- ends it otherwise.
  pub compile_protos_ended :
      (ibc_dir elct_dir out : FilePath) (w : World Disk)
      → let ended = (compile_protos ibc_dir elct_dir out w).0 in
        let (made, disk) = created out w.disk in
        let compiled = (generated ibc_dir elct_dir out disk).0 in
        ((ended ≡ panicked) ↔ (made ≢ success tt))
        × ((ended ≡ exited 1) ↔ ((made ≡ success tt) × (compiled ≢ success tt)))
        × ((ended ≡ returned tt) ↔ ((made ≡ success tt) × (compiled ≡ success tt)))
  unfolding ends report
  compile_protos_ended ibc_dir elct_dir out w =
      rw (compile_protos-ends ibc_dir elct_dir out w) (ground arith)
