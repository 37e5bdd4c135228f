-- ===== src/Daemon/Start.antt =====
-- `do_daemon_mode` of src/daemon.c, as a whole: the forks, the signals, the sockets and the loop.
use hddtemp.Prelude.{ℕ, Bool, Option, none, some, List, [], ◌∷◌, ◌++◌, ◌==◌, if◌then◌else◌, codes}
use hddtemp.Device.{Disk, Kernel, Dev, ◌>>=◌, ◌>>◌, pure, eprint, get_errno}
use hddtemp.Hddtemp.{Output}
use hddtemp.Daemon.{time}
use hddtemp.Daemon.Sockets.{
  Address, Opened, opened, cannot_listen, no_socket, daemon_open_sockets, daemon_close_sockets,
}
use hddtemp.Daemon.Loop.{Service, Event, Action, Running, start_timers, daemon_loop}

-- What a call of `fork` gives: -1, 0, or the child.
pub data Fork : Type 0 where
  fork_failed in_child in_parent : Fork

-- What the daemon makes of a signal.
pub data Disposition : Type 0 where
  -- still done, by src/backtrace.c
  kept : Disposition
  -- SIG_IGN
  ignored : Disposition
  -- `daemon_stop`
  stops : Disposition

-- SIGSEGV, SIGBUS, SIGILL and SIGPIPE, with their numbers on Linux.
unfoldable pub redirect : ℕ → Disposition
redirect i =
    if i == 11
    then kept
    else if i == 7
    then kept
    else if i == 4
    then kept
    else if i == 13
    then ignored
    else stops

-- How a call of `do_daemon_mode` ends.
pub data DaemonEnd : Type 0 where
  -- exit
  daemon_exit : ℕ → DaemonEnd
  -- behind the loop: the sockets that it closes, what the loop carried, and what the daemon did
  daemon_stopped : List ℕ → Running → List Action → DaemonEnd

-- What the system answers while the daemon runs: to the two forks, to `getaddrinfo` with the sockets
-- behind it, and to the calls of `select` up to the signal that ends it.
pub record System : Type 0 where
  pub first_fork : Fork
  pub second_fork : Fork
  -- none: `getaddrinfo` fails
  pub addresses : Option (List Address)
  pub events : List Event

module _ {W : Type 0} (k : Kernel W) (clock : W → ℕ × W) (year_before : ℕ → ℕ) where
  -- `perror("fork"); exit(2);`, `break` or `exit(0)`
  unfoldable pub after_fork : Fork → Dev W DaemonEnd → Dev W DaemonEnd
  after_fork fork_failed rest = do
    errno ← get_errno
    eprint (codes "fork: " ++ k.strerror errno ++ b'\n' ∷ [])
    pure (daemon_exit 2)
  after_fork in_child rest = rest
  after_fork in_parent rest = pure (daemon_exit 0)

  -- From the timers on.
  unfoldable pub run_daemon : Service → Output → List ℕ → List Event → List Disk → Dev W DaemonEnd
  unfolding daemon_loop start_timers
  run_daemon v o sks events ldisks = do
    now ← time k clock
    disks ← start_timers k clock year_before ldisks
    r ← daemon_loop k clock v o (record { disks = disks; next_time = now }) events
    pure (daemon_stopped (daemon_close_sockets sks) r.0 r.1)

  -- With what `daemon_open_sockets` gives; it exits with 1.
  unfoldable pub with_sockets : Service → Output → Opened → List Event → List Disk → Dev W DaemonEnd
  unfolding run_daemon
  with_sockets v o (opened sks) events ldisks = run_daemon v o sks events ldisks
  with_sockets v o (cannot_listen closed) events ldisks = pure (daemon_exit 1)
  with_sockets v o no_socket events ldisks = pure (daemon_exit 1)

  -- With what `getaddrinfo` finds; without it `daemon_open_sockets` exits with 1.
  unfoldable pub with_addresses :
      Service → Output → Option (List Address) → List Event → List Disk → Dev W DaemonEnd
  unfolding with_sockets
  with_addresses v o none events ldisks = pure (daemon_exit 1)
  with_addresses v o (some found) events ldisks =
      with_sockets v o (daemon_open_sockets found) events ldisks

  -- Behind the forks: `daemon_open_sockets`, if the daemon listens.
  unfoldable pub open_and_run :
      Service → Output → Option (List Address) → List Event → List Disk → Dev W DaemonEnd
  unfolding with_addresses
  open_and_run v o addresses events ldisks =
      if v.tcp_daemon
      then with_addresses v o addresses events ldisks
      else run_daemon v o [] events ldisks

  unfoldable pub do_daemon_mode : Service → Output → Bool → System → List Disk → Dev W DaemonEnd
  unfolding after_fork open_and_run
  do_daemon_mode v o foreground sys ldisks =
      let body = open_and_run v o sys.addresses sys.events ldisks in
      if foreground then body else after_fork sys.first_fork (after_fork sys.second_fork body)
