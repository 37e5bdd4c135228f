-- ===== src/Main.antt =====
-- `main` of src/hddtemp.c, from the options to the end of the program.
pub mod Texts
pub mod Ready
pub mod Ends
pub mod WellBehaved
pub mod Table
pub mod Script
use hddtemp.Prelude.{
  ℕ, Bool, true, false, Option, none, some, List, [], ◌∷◌, if◌then◌else◌, Bytes, length,
}
use hddtemp.Prelude.Int.{ℤ, pos_part}
use hddtemp.Db.Load.{
  Loaded, loaded, cannot_open, bad_line, line_too_long, buffer_overrun, out_of_fuel, load_database,
}
use hddtemp.Db.Lookup.{display_supported_drives}
use hddtemp.Device.{Disk, Kernel, Dev, ◌>>=◌, ◌>>◌, pure, crash, print, eprint}
use hddtemp.Hddtemp.{Output, do_direct_mode}
use hddtemp.Collect.{Collecting, Round, next, exit, collect, backwards}
use hddtemp.Daemon.Loop.{Service}
use hddtemp.Daemon.Start.{System, DaemonEnd, do_daemon_mode}
use hddtemp.Options.{
  Options, initial, Number, Parsed, parsed, shows_version, invalid_separator, invalid_port,
  invalid_interval, other_code, parse_options, Mode, database_mode, too_few_arguments,
  debug_with_daemon, daemon_mode, direct_mode, choose_mode,
}
use hddtemp.Main.Texts.{
  usage, version_text, separator_text, port_text, interval_text, arguments_text, debug_text,
}

-- What the program stands on, besides the kernel's control calls.
pub record Platform (W R F : Type 0) : Type 0 where
  pub open_file : Bytes → W → (Option ℕ × ℕ) × W
  pub regcomp : Bytes → Option R
  pub regexec : R → Bytes → Bool
  -- the database's file by its name, how it is read, the bound on the rounds of `load_database`, and
  -- what stands in its buffer
  pub open_database : Bytes → Option F
  pub read : ℕ → F → Bytes × F
  pub fuel : ℕ
  pub garbage : Bytes
  pub strtol : Bytes → Number
  pub clock : W → ℕ × W
  -- what `gmtime` and `mktime` make of a time
  pub year_before : ℕ → ℕ
  pub system : System
  -- `DEFAULT_DATABASE_PATH`, `VERSION` and what `degree_sign` gives
  pub path : Bytes
  pub version : Bytes
  pub degree : Bytes

-- How a run of the program ends.
pub data Ended : Type 0 where
  -- exit
  exited : ℕ → Ended
  -- behind `do_direct_mode`: whether `ret` is 1, and the disks
  shown : Bool → List Disk → Ended
  -- behind `do_daemon_mode`: whether `ret` is 1, and the disks before it
  daemon_ended : Bool → List Disk → DaemonEnd → Ended

abbrev pub service_of : Options → Service
service_of o = record { tcp_daemon = o.tcp_daemon; syslog_interval = pos_part o.syslog_interval }

abbrev pub no_disks : Collecting
no_disks = record { drives = none; disks = []; failed = false }

module _ {W R F : Type 0} (k : Kernel W) (p : Platform W R F) where
  abbrev pub output_of : Options → Output
  output_of o = record {
    debug = o.debug;
    wakeup = o.wakeup;
    quiet = o.quiet;
    numeric = o.numeric;
    unit = o.unit;
    separator = o.separator;
    version = p.version;
    degree = p.degree;
  }

  -- `fprintf(stderr, …); exit(1);`
  abbrev pub fail : Bytes → Dev W Ended
  fail text = eprint text >> pure (exited 1)

  -- `display_supported_drives(); exit(0);`, or the exit of `load_database`, with its message left out.
  unfoldable pub show_database : Loaded → Dev W Ended
  show_database (loaded drives) = print (display_supported_drives drives) >> pure (exited 0)
  show_database cannot_open = pure (exited 2)
  show_database (bad_line n) = pure (exited 2)
  show_database line_too_long = pure (exited 2)
  show_database buffer_overrun = crash
  show_database out_of_fuel = crash

  -- Behind the loop that collects the disks.
  unfoldable pub with_disks : (Bool → List Disk → Dev W Ended) → Round → Dev W Ended
  with_disks use_disks (exit status) = pure (exited status)
  with_disks use_disks (next st) = use_disks st.failed st.disks

  unfoldable pub direct : Options → Bool → List Disk → Dev W Ended
  direct o ret ldisks = do disks ← do_direct_mode k (output_of o) ldisks; pure (shown ret disks)

  unfoldable pub daemon : Options → Bool → List Disk → Dev W Ended
  daemon o ret ldisks = do
    e ←
        do_daemon_mode k p.clock p.year_before (service_of o) (output_of o) o.foreground p.system
          ldisks
    pure (daemon_ended ret ldisks e)

  -- `collect disks informations`
  unfoldable pub collect_all : Options → List Bytes → Dev W Round
  collect_all o args =
      collect k p.open_file p.regcomp p.regexec p.read p.fuel p.garbage
        (p.open_database o.database_path) (backwards args []) no_disks

  -- Behind the options, for the mode: `o` are those of the command line.
  unfoldable pub run_mode : Options → List Bytes → Mode → Dev W Ended
  unfolding show_database with_disks direct daemon collect_all
  run_mode o args database_mode =
      show_database (load_database p.read p.fuel p.garbage (p.open_database o.database_path) [])
  run_mode o args too_few_arguments = fail arguments_text
  run_mode o args debug_with_daemon = fail debug_text
  run_mode o args (daemon_mode o') = do round ← collect_all o' args; with_disks (daemon o') round
  run_mode o args (direct_mode o') = do round ← collect_all o' args; with_disks (direct o') round

  unfoldable pub run_parsed : List Bytes → Parsed → Dev W Ended
  unfolding run_mode
  run_parsed args (parsed o) = run_mode o args (choose_mode o (length args))
  run_parsed args (shows_version with_usage) = do
    if with_usage then print usage else pure tt
    print (version_text p.version)
    pure (exited 0)
  run_parsed args invalid_separator = fail separator_text
  run_parsed args invalid_port = fail port_text
  run_parsed args invalid_interval = fail interval_text
  run_parsed args other_code = pure (exited 1)

  -- The options that `getopt_long` returns, with their arguments, and the arguments behind them.
  unfoldable pub main : List (ℕ × Bytes) → List Bytes → Dev W Ended
  unfolding run_parsed
  main options args = run_parsed args (parse_options p.strtol options (initial p.path))
