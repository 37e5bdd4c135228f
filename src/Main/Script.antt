-- ===== src/Main/Script.antt =====
-- src/hddtemp.c: what a script reads of the program, with -n and -q.
use mathlib.Core.Path.{subst}
use hddtemp.Prelude.{ℕ, true, false, none, List, [], ◌++◌, ◌≡◌, refl, sym, ◌∙◌, ◌⊎◌, Bytes, length}
use hddtemp.Device.{Disk, Kernel, Sys}
use hddtemp.Device.Ensures.{Post, Ensures, Ensures-both, Ensures-bind, Ensures-pure}
use hddtemp.Device.Silent.{Says}
use hddtemp.Hddtemp.{Output, do_direct_mode}
use hddtemp.Hddtemp.Served.{AllSame, AllServed, do_direct_mode-AllSame}
use hddtemp.Hddtemp.Lines.{for_scripts, AreLines, do_direct_mode-AreLines}
use hddtemp.Collect.{Round, next, exit, backwards}
use hddtemp.Collect.Loop.{AddsAll, collect-AddsAll}
use hddtemp.Collect.Mute.{collect-Mute, Mute-Ensures}
use hddtemp.Collect.Order.{AddsAll-IsComplete}
use hddtemp.Collect.Served.{HasModels, AddsAll-served}
use hddtemp.Options.{Options, initial, parsed, parse_options, direct_mode, choose_mode}
use hddtemp.Main.{
  Platform, Ended, exited, shown, daemon_ended, no_disks, output_of, with_disks, direct,
  collect_all, run_mode, run_parsed, main,
}
use hddtemp.Main.Ready.{AllSame-names}
use hddtemp.Main.Ends.{AreNamed, LoadsSafely}

module _ {W R F : Type 0} (k : Kernel W) (p : Platform W R F) where
  -- The end of a run with the options, which had printed `out` before: no text but the lines of the disks.
  abbrev pub ScriptEnds : List Bytes → Options → Bytes → Ended → Sys W → Type 0
  ScriptEnds args o out (exited n) s = ((n ≡ 2) ⊎ (n ≡ 254)) × (s.stdout ≡ out)
  ScriptEnds args o out (shown ret disks) s =
      AreNamed args ret disks
      × ((asked : List Disk) × (text : Bytes) × (AllSame asked disks
            × (s.stdout ≡ out ++ text)
            × AreLines k (output_of k p o) out asked disks text))
  ScriptEnds args o out (daemon_ended ret disks e) s = ⊥

  -- The settings of a run with -n and -q and without -D.
  abbrev pub IsScript : Options → Type 0
  IsScript o = (o.debug ≡ false) × (o.numeric ≡ true) × (o.quiet ≡ true)

  script_output : (o : Options) → IsScript o → output_of k p o ≡ for_scripts (output_of k p o)
  script_output o (d, n, q) = rw (d, n, q) refl

  -- The models of the drives can be read.
  abbrev pub CanReadModels : Type 0
  CanReadModels =
      (path : Bytes)
      → HasModels k p.open_file p.regcomp p.regexec p.read p.fuel p.garbage (p.open_database path)

  module _ (models : CanReadModels) (loads : LoadsSafely k p) (args : List Bytes) (o : Options)
      (i : IsScript o) (out : Bytes) where
    -- What the direct mode leaves of the disks and of the standard output.
    abbrev Shown : List Disk → List Disk → Sys W → Type 0
    Shown disks ds s =
        AllSame disks ds
        × ((text : Bytes) × ((s.stdout ≡ out ++ text)
              × AreLines k (output_of k p o) out disks ds text))

    do_direct_mode-Shown :
        (disks : List Disk)
        → AllServed disks
        → Ensures (Says out) (do_direct_mode k (output_of k p o) disks) (λ ds s. Shown disks ds s)
    do_direct_mode-Shown disks h =
        let settings : Output = output_of k p o in
        subst (λ x. Ensures (Says out) (do_direct_mode k x disks) (λ ds s. Shown disks ds s))
          (sym (script_output o i))
          (Ensures-both
            (record { at = λ s q. do_direct_mode-AllSame k (for_scripts settings) disks s h })
            (record {
              at = λ s q.
                  subst
                    (λ x.
                      Post
                        (λ ds s'.
                          (text : Bytes) × ((s'.stdout ≡ x ++ text)
                            × AreLines k settings x disks ds text))
                        (do_direct_mode k (for_scripts settings) disks s))
                    q (do_direct_mode-AreLines k settings disks s h);
            }))

    direct-ScriptEnds :
        (r : Round)
        → AddsAll (λ m. Unit {0}) (backwards args []) no_disks r
        → Ensures (Says out) (with_disks k p (direct k p o) r) (λ e s. ScriptEnds args o out e s)
    unfolding with_disks direct
    direct-ScriptEnds (exit n) all = Ensures-pure _ (λ s q. (all, q))
    direct-ScriptEnds (next st) all =
        Ensures-bind
          (do_direct_mode-Shown st.disks
            (AddsAll-served (λ m. Unit {0}) (backwards args []) no_disks (next st) tt all))
          λ ds. Ensures-pure _ (λ s h. (
            λ f.
                AllSame-names st.disks ds h.0
                ∙ AddsAll-IsComplete (λ m. Unit {0}) args none (next st) all f,
            (st.disks, h.1.0, (h.0, h.1.1.0, h.1.1.1)),
          ))

    collect_all-script :
        Ensures
          (Says out)
          (collect_all k p o args)
          (λ r s. AddsAll (λ m. Unit {0}) (backwards args []) no_disks r × Says out s)
    unfolding collect_all
    collect_all-script =
        Mute-Ensures out
          (collect-Mute out k p.open_file p.regcomp p.regexec p.read p.fuel p.garbage
            (p.open_database o.database_path) (backwards args []) no_disks)
          (collect-AddsAll (λ m. Unit {0}) k p.open_file p.regcomp p.regexec p.read p.fuel p.garbage
            (p.open_database o.database_path) (loads o.database_path) (models o.database_path)
            (backwards args []) no_disks)

    run_mode-ScriptEnds :
        (o' : Options)
        → Ensures
            (Says out)
            (run_mode k p o' args (direct_mode o))
            (λ e s. ScriptEnds args o out e s)
    unfolding run_mode
    run_mode-ScriptEnds o' =
        Ensures-bind collect_all-script
          λ r. record { at = λ s h. (direct-ScriptEnds r h.0).at s h.1 }

  -- With -n and -q, without -D, and on a command line for which `main` chooses the direct mode, where the models
  -- of the drives can be read, and the databases without a step behind the loader's buffer: `main` ends, whatever the kernel answers. Either it exits with 2 or 254 and has
  -- printed nothing on the standard output, or the disks are, if `ret` is 0, those of the arguments, in their
  -- order, and all that it prints there is, for each disk in turn, the line of the result of its query.
  pub main-reads_models :
      CanReadModels
      → LoadsSafely k p
      → (options : List (ℕ × Bytes)) (args : List Bytes) (o o' : Options) (s : Sys W)
      → parse_options p.strtol options (initial p.path) ≡ parsed o'
      → choose_mode o' (length args) ≡ direct_mode o
      → IsScript o
      → Post (λ e s'. ScriptEnds args o s.stdout e s') (main k p options args s)
  unfolding main run_parsed
  main-reads_models models loads options args o o' s e c i =
      rw (e, run_parsed, c) ((run_mode-ScriptEnds models loads args o i s.stdout o').at s refl)
