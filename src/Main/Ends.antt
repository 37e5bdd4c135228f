-- ===== src/Main/Ends.antt =====
-- src/hddtemp.c: how `main` ends, in each mode.
use hddtemp.Prelude.{ℕ, Bool, false, none, List, [], ◌≡◌, refl, ◌∙◌, ◌⊎◌, inl, inr, Bytes, length}
use hddtemp.Db.Load.{
  Loaded, loaded, cannot_open, bad_line, line_too_long, buffer_overrun, out_of_fuel, load_database,
}
use hddtemp.Db.Load.Spec.{IsSafeLoad}
use hddtemp.Device.{Disk, Kernel, Sys, ◌>>=◌, pure, eprint}
use hddtemp.Device.Ensures.{Post, Ensures, Ensures-bind, Ensures-if, Ensures-pure, Ensures-weaken}
use hddtemp.Device.Kept.{Any, Runs-pure, Runs-print, Ensures-given}
use hddtemp.Smart.Small.{HasBytes}
use hddtemp.Hddtemp.Served.{AllServed, AllSame, Runs-eprint, do_direct_mode-AllSame}
use hddtemp.Collect.{Round, next, exit, backwards}
use hddtemp.Collect.Rounds.{HasModelsOf}
use hddtemp.Collect.Loop.{AddsAll, collect-AddsAll}
use hddtemp.Collect.Order.{names, drives_of_all, AddsAll-IsComplete}
use hddtemp.Daemon.Safe.{AllReady}
use hddtemp.Daemon.Live.{EndFits, do_daemon_mode-EndFits}
use hddtemp.Options.{
  Options, initial, Parsed, parsed, shows_version, invalid_separator, invalid_port,
  invalid_interval, other_code, parse_options, Mode, database_mode, too_few_arguments,
  debug_with_daemon, daemon_mode, direct_mode, choose_mode,
}
use hddtemp.Main.Ready.{
  IsShortModel, AllShort, AllShort-backwards, AddsAll-AllReady, AllReady-Served, AllSame-Served,
  AllSame-names,
}
use hddtemp.Main.{
  Platform, Ended, exited, shown, daemon_ended, service_of, no_disks, output_of, show_database,
  with_disks, direct, daemon, collect_all, run_mode, run_parsed, main,
}

-- The disks are those of the arguments, if `ret` is 0.
abbrev pub AreNamed : List Bytes → Bool → List Disk → Type 0
AreNamed args ret disks = ret ≡ false → names disks ≡ drives_of_all args

module _ {W R F : Type 0} (k : Kernel W) (p : Platform W R F) where
  -- What the end of the program is in a mode.
  abbrev pub EndsAs : List Bytes → Mode → Ended → Type 0
  EndsAs args database_mode e = (e ≡ exited 0) ⊎ (e ≡ exited 2)
  EndsAs args too_few_arguments e = e ≡ exited 1
  EndsAs args debug_with_daemon e = e ≡ exited 1
  EndsAs args (direct_mode o) (exited n) = (n ≡ 2) ⊎ (n ≡ 254)
  EndsAs args (direct_mode o) (shown ret disks) = AllServed disks × AreNamed args ret disks
  EndsAs args (direct_mode o) (daemon_ended ret disks e) = ⊥
  EndsAs args (daemon_mode o) (exited n) = (n ≡ 2) ⊎ (n ≡ 254)
  EndsAs args (daemon_mode o) (shown ret disks) = ⊥
  EndsAs args (daemon_mode o) (daemon_ended ret disks e) =
      AreNamed args ret disks
      × EndFits p.clock (service_of o) (output_of k p o) p.system.events disks e

  -- Behind the options.
  abbrev pub ParsedEnds : List Bytes → Parsed → Ended → Type 0
  ParsedEnds args (parsed o) e = EndsAs args (choose_mode o (length args)) e
  ParsedEnds args (shows_version with_usage) e = e ≡ exited 0
  ParsedEnds args invalid_separator e = e ≡ exited 1
  ParsedEnds args invalid_port e = e ≡ exited 1
  ParsedEnds args invalid_interval e = e ≡ exited 1
  ParsedEnds args other_code e = e ≡ exited 1

  -- The databases that `load_database` can be asked for are read without a step behind its buffer.
  abbrev pub LoadsSafely : Type 0
  LoadsSafely =
      (path : Bytes) → IsSafeLoad (load_database p.read p.fuel p.garbage (p.open_database path) [])

  -- The models that the drivers read are short.
  abbrev pub HasShortModels : Type 0
  HasShortModels =
      (path : Bytes)
      → HasModelsOf IsShortModel k p.open_file p.regcomp p.regexec p.read p.fuel p.garbage
          (p.open_database path)

  fail-Ends :
      (text : Bytes)
      → Ensures {W = W} Any (eprint text >>= λ _. pure (exited 1)) (λ e s. e ≡ exited 1)
  fail-Ends text = Ensures-bind (Runs-eprint text) λ _. Ensures-pure _ (λ s q. refl)

  show_database-Ends :
      (l : Loaded)
      → IsSafeLoad l
      → Ensures Any (show_database k p l) (λ e s. (e ≡ exited 0) ⊎ (e ≡ exited 2))
  unfolding show_database
  show_database-Ends (loaded drives) h =
      Ensures-bind (Runs-print _) λ _. Ensures-pure _ (λ s q. inl refl)
  show_database-Ends cannot_open h = Ensures-pure _ (λ s q. inr refl)
  show_database-Ends (bad_line n) h = Ensures-pure _ (λ s q. inr refl)
  show_database-Ends line_too_long h = Ensures-pure _ (λ s q. inr refl)
  show_database-Ends buffer_overrun h = absurd h
  show_database-Ends out_of_fuel h = absurd h

  -- What the loop that collects the disks leaves.
  abbrev Gathered : List Bytes → Round → Type 0
  Gathered args (exit n) = (n ≡ 2) ⊎ (n ≡ 254)
  Gathered args (next st) = AllReady st.disks × AreNamed args st.failed st.disks

  gathered :
      (args : List Bytes) (r : Round)
      → AllShort args
      → AddsAll IsShortModel (backwards args []) no_disks r
      → Gathered args r
  gathered args (exit n) h all = all
  gathered args (next st) h all = (
    AddsAll-AllReady (backwards args []) no_disks st (AllShort-backwards args [] h tt) tt all,
    AddsAll-IsComplete IsShortModel args none (next st) all,
  )

  module _ (bytes : HasBytes k) (models : HasShortModels) (loads : LoadsSafely) (args : List Bytes)
      (short : AllShort args) where
    collect_all-Gathered :
        (o : Options) → Ensures Any (collect_all k p o args) (λ r s. Gathered args r)
    unfolding collect_all
    collect_all-Gathered o =
        Ensures-weaken
          (collect-AddsAll IsShortModel k p.open_file p.regcomp p.regexec p.read p.fuel p.garbage
            (p.open_database o.database_path) (loads o.database_path) (models o.database_path)
            (backwards args []) no_disks)
          λ r s all. gathered args r short all

    direct-Ends :
        (o : Options) (r : Round)
        → Gathered args r
        → Ensures Any (with_disks k p (direct k p o) r) (λ e s. EndsAs args (direct_mode o) e)
    unfolding with_disks direct
    direct-Ends o (exit n) g = Ensures-pure _ (λ s q. g)
    direct-Ends o (next st) g =
        Ensures-bind
          (record {
            at = λ s q.
                do_direct_mode-AllSame k (output_of k p o) st.disks s
                  (AllReady-Served st.disks g.0);
          })
          λ ds. Ensures-given {C = AllSame st.disks ds} λ same.
            Ensures-pure _ (λ s q.
              (AllSame-Served st.disks ds same, λ f. AllSame-names st.disks ds same ∙ g.1 f))

    daemon-Ends :
        (o : Options) (r : Round)
        → Gathered args r
        → Ensures Any (with_disks k p (daemon k p o) r) (λ e s. EndsAs args (daemon_mode o) e)
    unfolding with_disks daemon
    daemon-Ends o (exit n) g = Ensures-pure _ (λ s q. g)
    daemon-Ends o (next st) g =
        Ensures-bind
          (do_daemon_mode-EndFits k bytes p.clock p.year_before (service_of o) (output_of k p o)
            o.foreground p.system st.disks g.0)
          λ e. Ensures-given λ f. Ensures-pure _ (λ s q. (g.1, f))

    run_mode-Ends :
        (o : Options) (m : Mode) → Ensures Any (run_mode k p o args m) (λ e s. EndsAs args m e)
    unfolding run_mode
    run_mode-Ends o database_mode = show_database-Ends _ (loads o.database_path)
    run_mode-Ends o too_few_arguments = fail-Ends _
    run_mode-Ends o debug_with_daemon = fail-Ends _
    run_mode-Ends o (daemon_mode o') =
        Ensures-bind (collect_all-Gathered o') λ r. Ensures-given λ g. daemon-Ends o' r g
    run_mode-Ends o (direct_mode o') =
        Ensures-bind (collect_all-Gathered o') λ r. Ensures-given λ g. direct-Ends o' r g

    run_parsed-Ends :
        (q : Parsed) → Ensures Any (run_parsed k p args q) (λ e s. ParsedEnds args q e)
    unfolding run_parsed
    run_parsed-Ends (parsed o) = run_mode-Ends o (choose_mode o (length args))
    run_parsed-Ends (shows_version with_usage) =
        Ensures-bind (Ensures-if with_usage (λ _. Runs-print _) (λ _. Runs-pure _))
          λ _. Ensures-bind (Runs-print _) λ _. Ensures-pure _ (λ s q. refl)
    run_parsed-Ends invalid_separator = fail-Ends _
    run_parsed-Ends invalid_port = fail-Ends _
    run_parsed-Ends invalid_interval = fail-Ends _
    run_parsed-Ends other_code = Ensures-pure _ (λ s q. refl)

    -- On a kernel that fills its buffers with bytes, with models of at most 40 bytes, names of drives of
    -- at most 80, and a database that is read without a step behind the buffer, `main` comes to its end
    -- on every command line, whatever else the kernel, the files, the clock and the sockets give. Help
    -- and version exit with 0, an option that is refused with 1, the database with 0 or 2, too few arguments and -D
    -- with the daemon with 1. Otherwise the collection exits with 2 or 254, or the disks are, if `ret` is 0,
    -- exactly those of the arguments, in their order; the direct mode leaves them able to be served,
    -- and the daemon exits with 0, 1 or 2 or has answered every client that it accepted, in their order.
    pub main-ParsedEnds :
        (options : List (ℕ × Bytes)) (s : Sys W)
        → Post
            (λ e s'. ParsedEnds args (parse_options p.strtol options (initial p.path)) e)
            (main k p options args s)
    unfolding main
    main-ParsedEnds options s =
        (run_parsed-Ends (parse_options p.strtol options (initial p.path))).at s tt
