-- ===== src/ProtoCompiler/Rerun.antt =====
-- proto-compiler/src/cmd/compile.rs: what a run leaves alone, and that old output has no part in it.
use mathlib.Core.Path.{fun_ext}
use ethereum_elc.Base.{
  ◌≡◌, ◌≢◌, refl, sym, inl, inr, ◌⊎◌, List, [], String, ◌∙◌, ap, true, false, Bool, Bool-cases,
  none, arith,
}
use ethereum_elc.ProtoCompiler.Process.{World, Ended}
use ethereum_elc.ProtoCompiler.External.{Tools}
use ethereum_elc.ProtoCompiler.{Disk, report, compile_protos}
use ethereum_elc.ProtoCompiler.Laws.{Settings, IsLawfulDisk, IsLawfulBuilder}
use ethereum_elc.ProtoCompiler.Configured.{settings-configured}
use ethereum_elc.ProtoCompiler.Ends.{cleared, created, generated, ends, compile_protos-ends}

module _ ⦃T : Tools⦄ where
  open T use {FilePath, Builder, create_dir_all}

  module _ {within : FilePath → FilePath → Bool} {settings : Builder → Settings FilePath}
      (F : IsLawfulDisk within) (B : IsLawfulBuilder within settings)
      (ibc_dir elct_dir out : FilePath) where
    abbrev start : Disk → World Disk
    start disk = record { disk = disk; printed = [] }

    abbrev run : World Disk → World Disk
    run w = (compile_protos ibc_dir elct_dir out w).1

    generated-keeps :
        (disk : Disk) (path : FilePath)
        → within out path ≡ false
        → (generated ibc_dir elct_dir out disk).1 path ≡ disk path
    generated-keeps disk path outside =
        B.compile-keeps _ _ _ disk out path (ap (λ s. s.target) (settings-configured B out)) outside

    -- A path outside the output directory that is there already, or is none of its parents.
    Kept : Disk → FilePath → Type 0
    Kept disk path = (disk path ≢ none) ⊎ (within path out ≡ false)

    created-keeps :
        (disk : Disk) (path : FilePath)
        → within out path ≡ false
        → Kept disk path
        → (created out disk).1 path ≡ disk path
    unfolding Kept
    created-keeps disk path outside (inl there) =
        let removed = F.remove-keeps out path disk outside in
        F.create-keeps out path (cleared out disk) (λ gone. there (sym removed ∙ gone)) ∙ removed
    created-keeps disk path outside (inr apart) =
        F.create-other out path (cleared out disk) apart ∙ F.remove-keeps out path disk outside

    run-keeps :
        (w : World Disk) (path : FilePath)
        → within out path ≡ false
        → Kept w.disk path
        → (run w).disk path ≡ w.disk path
    unfolding ends report
    run-keeps w path outside kept = ground (
      arith,
      compile_protos-ends ibc_dir elct_dir out w,
      created-keeps w.disk path outside kept,
      generated-keeps (created out w.disk).1 path outside,
    )

    -- Whatever the end of compile_protos, a file or directory that was there outside the output
    -- directory is as it was. This is for a std::fs and a tonic_build that write as documented.
    pub compile_protos_keeps :
        (w : World Disk) (path : FilePath)
        → within out path ≡ false
        → w.disk path ≢ none
        → (run w).disk path ≡ w.disk path
    unfolding Kept
    compile_protos_keeps w path outside there = run-keeps w path outside (inl there)

    -- What compile_protos does depends only on what lies outside the output directory: on two
    -- disks that agree there, with the same lines printed so far, it ends in the same way, prints
    -- the same and leaves the same disk. This is for a std::fs that removes and creates as
    -- documented, and for two disks whose output directory the removal clears.
    pub compile_protos_agree :
        (v w : World Disk)
        → v.printed ≡ w.printed
        → ((path : FilePath) → within out path ≡ false → v.disk path ≡ w.disk path)
        → ((path : FilePath) → within out path ≡ true → cleared out v.disk path ≡ none)
        → ((path : FilePath) → within out path ≡ true → cleared out w.disk path ≡ none)
        → compile_protos ibc_dir elct_dir out v ≡ compile_protos ibc_dir elct_dir out w
    compile_protos_agree v w lines agree gone_v gone_w =
        compile_protos-ends ibc_dir elct_dir out v
        ∙ ap (result v.printed) same
        ∙ ap (λ printed. result printed (cleared out w.disk)) lines
        ∙ sym (compile_protos-ends ibc_dir elct_dir out w)
      where
        result : List String → Disk → Ended (Unit {0}) × World Disk
        result printed disk =
            let (made, after) = create_dir_all out disk in
            ends ibc_dir elct_dir out printed after made

        same : cleared out v.disk ≡ cleared out w.disk
        same = fun_ext λ path. elim (Bool-cases (within out path)) [
          | inl inside ↦ gone_v path inside ∙ sym (gone_w path inside)
          | inr outside ↦
              F.remove-keeps out path v.disk outside
              ∙ agree path outside
              ∙ sym (F.remove-keeps out path w.disk outside)
        ]

    -- A second run of compile_protos with the same arguments, on the disk that a first one left,
    -- ends as the first did, prints the same and leaves the same disk, if the parents of the
    -- output directory were there. This is for a std::fs and a tonic_build that write as
    -- documented, and for disks whose output directory the removal clears.
    pub compile_protos_twice :
        (disk : Disk)
        → ((path : FilePath) → within out path ≡ false → within path out ≡ true → disk path ≢ none)
        → ((path : FilePath) → within out path ≡ true → cleared out disk path ≡ none)
        → ((path : FilePath)
            → within out path ≡ true
            → cleared out (run (start disk)).disk path ≡ none)
        → compile_protos ibc_dir elct_dir out (start (run (start disk)).disk)
          ≡ compile_protos ibc_dir elct_dir out (start disk)
    unfolding Kept
    compile_protos_twice disk parents gone_first gone_second =
        let first = start disk in
        compile_protos_agree (start (run first).disk) first refl
          (λ path outside. run-keeps first path outside (kept path outside)) gone_second gone_first
      where
        kept : (path : FilePath) → within out path ≡ false → Kept disk path
        kept path outside = elim (Bool-cases (within path out)) [
          | inl parent ↦ inl (parents path outside parent)
          | inr apart ↦ inr apart
        ]
