-- ===== src/Daemon/Live.antt =====
-- src/daemon.c: the daemon, once it has started, answers each client.
use hddtemp.Prelude.{
  ℕ, Bool, true, false, Option, none, some, List, [], ◌∷◌, ◌≡◌, refl, ◌⊎◌, inl, inr,
}
use hddtemp.Device.{Disk, Kernel, Sys, Dev, ◌>>=◌}
use hddtemp.Device.Ensures.{Post, Ensures, Ensures-bind, Ensures-if, Ensures-pure, Ensures-weaken}
use hddtemp.Device.Kept.{Any, Runs-get_errno, Ensures-given}
use hddtemp.Smart.Small.{HasBytes}
use hddtemp.Hddtemp.{Output}
use hddtemp.Hddtemp.Served.{Runs-eprint}
use hddtemp.Daemon.{time}
use hddtemp.Daemon.Served.{time-Runs, ServedOn-fields, Shown-fields}
use hddtemp.Daemon.Safe.{IsReady, AllReady, StaysReady, AllStay, AllStay-Ready}
use hddtemp.Daemon.Staying.{AllStay-trans}
use hddtemp.Daemon.Trace.{Serves, Serves-back}
use hddtemp.Daemon.Serves.{loop-Serves}
use hddtemp.Daemon.Answers.{Answers, clients, Serves-Answers}
use hddtemp.Daemon.Sockets.{
  Address, AllListen, sockets_of, Opened, opened, cannot_listen, no_socket, daemon_open_sockets,
  daemon_open_sockets-sockets_of,
}
use hddtemp.Daemon.Loop.{Service, Event, Action, Running, start_timers}
use hddtemp.Daemon.Start.{
  Fork, fork_failed, in_child, in_parent, DaemonEnd, daemon_exit, daemon_stopped, System,
  after_fork, run_daemon, with_sockets, with_addresses, open_and_run, do_daemon_mode,
}

StaysReady-last_time : (d : Disk) (n : ℕ) → IsReady d → StaysReady d (record d { last_time = n })
StaysReady-last_time d n h =
    let served = ServedOn-fields d.bus d (record d { last_time = n }) refl refl h.served in
    record {
      same = record { drive = refl; model = refl; bus = refl; served = served };
      is_ready = record {
        served = served;
        shown = Shown-fields d.ret d (record d { last_time = n }) refl refl h.shown;
        small = h.small;
        fits = h.fits;
      };
    }

-- What the loop has done on the disks: an answer for each client, and its part for each event.
pub record HasRun {W : Type 0} (clock : W → ℕ × W) (v : Service) (o : Output) (events : List Event)
    (ldisks : List Disk) (st : Running) (actions : List Action) : Type 0 where
  pub answers : Answers o.separator ldisks (clients v events) (st, actions)
  -- the worlds in which the timer was started, and in which the loop was
  pub begun : W
  pub entered : W
  pub serves : Serves clock v o.separator ldisks entered (clock begun).0 events actions

-- The loop was left: the sockets are closed, and of the disks that it began with each client got
-- its answer.
abbrev pub HasServed :
    {W : Type 0}
    → (W → ℕ × W)
    → Service
    → Output
    → List Event
    → List Disk
    → List ℕ
    → DaemonEnd
    → Type 0
HasServed clock v o events ldisks sks (daemon_exit n) = ⊥
HasServed clock v o events ldisks sks (daemon_stopped closed st actions) =
    (closed ≡ sks) × HasRun clock v o events ldisks st actions

-- The same, or the daemon has exited.
abbrev pub EndFits :
    {W : Type 0} → (W → ℕ × W) → Service → Output → List Event → List Disk → DaemonEnd → Type 0
EndFits clock v o events ldisks (daemon_exit n) = (n ≡ 0) ⊎ ((n ≡ 1) ⊎ (n ≡ 2))
EndFits clock v o events ldisks (daemon_stopped closed st actions) =
    HasRun clock v o events ldisks st actions

HasServed-EndFits :
    {W : Type 0} (clock : W → ℕ × W) (v : Service) (o : Output) (events : List Event)
    (ldisks : List Disk) (sks : List ℕ) (e : DaemonEnd)
    → HasServed clock v o events ldisks sks e
    → EndFits clock v o events ldisks e
HasServed-EndFits clock v o events ldisks sks (daemon_exit n) h = absurd h
HasServed-EndFits clock v o events ldisks sks (daemon_stopped closed st actions) h = h.1

-- The daemon behind its forks.
abbrev pub IsStarted : Bool → System → Type 0
IsStarted foreground sys =
    (foreground ≡ true) ⊎ ((sys.first_fork ≡ in_child) × (sys.second_fork ≡ in_child))

module _ {W : Type 0} (k : Kernel W) (bytes : HasBytes k) (clock : W → ℕ × W) (year_before : ℕ → ℕ)
    (v : Service) (o : Output) where
  start_timers-AllStay :
      (ldisks : List Disk)
      → AllReady ldisks
      → Ensures Any (start_timers k clock year_before ldisks) (λ ds s. AllStay ldisks ds)
  unfolding start_timers
  start_timers-AllStay [] h = Ensures-pure _ (λ s q. tt)
  start_timers-AllStay (d ∷ ds) h = Ensures-bind (time-Runs k clock) λ now.
      Ensures-bind (start_timers-AllStay ds h.1)
        λ rest. Ensures-given λ stay. Ensures-pure _ (λ s q. (StaysReady-last_time d _ h.0, stay))

  run_daemon-HasServed :
      (sks : List ℕ) (events : List Event) (ldisks : List Disk)
      → AllReady ldisks
      → Ensures Any
          (run_daemon k clock year_before v o sks events ldisks)
          (λ e s. HasServed clock v o events ldisks sks e)
  unfolding run_daemon time ◌>>=◌
  run_daemon-HasServed sks events ldisks h = record {
    at = λ s q.
        (Ensures-bind (start_timers-AllStay ldisks h) λ ds. record {
          at = λ s₁ stay.
              (Ensures-bind
                  (loop-Serves k bytes clock v o events s₁.world
                    (record { disks = ds; next_time = (clock s.world).0 })
                    (AllStay-Ready ldisks ds stay))
                  λ r. Ensures-pure _ (λ s₂ (stays, serves).
                    let from_start = Serves-back stay serves in
                    (
                      refl,
                      record {
                        answers =
                            Serves-Answers r.0 (AllStay-trans ldisks ds r.0.disks stay stays)
                              from_start;
                        begun = s.world;
                        entered = s₁.world;
                        serves = from_start;
                      },
                    ))).at
                s₁ refl;
        }).at
          (record s { world = (clock s.world).1 }) tt;
  }

  module _ (events : List Event) (ldisks : List Disk) (h : AllReady ldisks) where
    -- The action ends as `EndFits` says.
    abbrev Ends : Dev W DaemonEnd → Type 0
    Ends m = Ensures Any m (λ e s. EndFits clock v o events ldisks e)

    run_daemon-Ends : (sks : List ℕ) → Ends (run_daemon k clock year_before v o sks events ldisks)
    run_daemon-Ends sks =
        Ensures-weaken (run_daemon-HasServed sks events ldisks h)
          λ e s. HasServed-EndFits clock v o events ldisks sks e

    with_sockets-Ends :
        (found : Opened) → Ends (with_sockets k clock year_before v o found events ldisks)
    unfolding with_sockets
    with_sockets-Ends (opened sks) = run_daemon-Ends sks
    with_sockets-Ends (cannot_listen closed) = Ensures-pure _ (λ s q. inr (inl refl))
    with_sockets-Ends no_socket = Ensures-pure _ (λ s q. inr (inl refl))

    with_addresses-Ends :
        (addresses : Option (List Address))
        → Ends (with_addresses k clock year_before v o addresses events ldisks)
    unfolding with_addresses
    with_addresses-Ends none = Ensures-pure _ (λ s q. inr (inl refl))
    with_addresses-Ends (some found) = with_sockets-Ends (daemon_open_sockets found)

    open_and_run-Ends :
        (addresses : Option (List Address))
        → Ends (open_and_run k clock year_before v o addresses events ldisks)
    unfolding open_and_run
    open_and_run-Ends addresses =
        Ensures-if v.tcp_daemon (λ _. with_addresses-Ends addresses) (λ _. run_daemon-Ends [])

    after_fork-Ends :
        (f : Fork) (m : Dev W DaemonEnd) → Ends m → Ends (after_fork k clock year_before f m)
    unfolding after_fork
    after_fork-Ends fork_failed m h =
        Ensures-bind Runs-get_errno
          λ errno. Ensures-bind (Runs-eprint _) λ _. Ensures-pure _ (λ s q. inr (inr refl))
    after_fork-Ends in_child m h = h
    after_fork-Ends in_parent m h = Ensures-pure _ (λ s q. inl refl)

  -- Whatever the system answers, the daemon exits with 0, 1 or 2, or has served.
  pub do_daemon_mode-EndFits :
      (foreground : Bool) (sys : System) (ldisks : List Disk)
      → AllReady ldisks
      → Ensures Any
          (do_daemon_mode k clock year_before v o foreground sys ldisks)
          (λ e s. EndFits clock v o sys.events ldisks e)
  unfolding do_daemon_mode
  do_daemon_mode-EndFits foreground sys ldisks h =
      let body = open_and_run-Ends sys.events ldisks h sys.addresses in
      Ensures-if foreground (λ _. body)
        (λ _.
          after_fork-Ends sys.events ldisks h sys.first_fork _
            (after_fork-Ends sys.events ldisks h sys.second_fork _ body))

  started-body :
      (foreground : Bool) (sys : System) (ldisks : List Disk)
      → IsStarted foreground sys
      → do_daemon_mode k clock year_before v o foreground sys ldisks
        ≡ open_and_run k clock year_before v o sys.addresses sys.events ldisks
  unfolding do_daemon_mode after_fork
  started-body foreground sys ldisks (inl f) = rw f refl
  started-body true sys ldisks (inr (p, q)) = refl
  started-body false sys ldisks (inr (p, q)) = rw (p, q) refl

  open_and_run-opened :
      (addresses : List Address) (events : List Event) (ldisks : List Disk)
      → v.tcp_daemon ≡ true
      → open_and_run k clock year_before v o (some addresses) events ldisks
        ≡ with_sockets k clock year_before v o (daemon_open_sockets addresses) events ldisks
  unfolding open_and_run with_addresses
  open_and_run-opened addresses events ldisks t = rw t refl

  -- In the foreground, or as the child of both forks, with sockets of which every one that is bound
  -- listens, at least one, on a kernel that fills its buffers with bytes, and on disks that the
  -- daemon can serve: `do_daemon_mode` comes to the end of its loop, whatever the clock gives. It
  -- then closes exactly the sockets of the addresses, and each client that `accept` gave up to the
  -- first failure of `select`, and nobody else, was answered, in their order, about each disk in turn; and
  -- all that it did is related to the events one by one, as the loop does it, the logs included.
  pub do_daemon_mode-HasServed :
      (foreground : Bool) (sys : System) (ldisks : List Disk) (addresses : List Address) (n : ℕ)
      (sks : List ℕ) (s : Sys W)
      → IsStarted foreground sys
      → v.tcp_daemon ≡ true
      → sys.addresses ≡ some addresses
      → AllListen addresses
      → sockets_of addresses ≡ n ∷ sks
      → AllReady ldisks
      → Post
          (λ e s'. HasServed clock v o sys.events ldisks (n ∷ sks) e)
          (do_daemon_mode k clock year_before v o foreground sys ldisks s)
  unfolding with_sockets
  do_daemon_mode-HasServed foreground sys ldisks addresses n sks s i t a l q h =
      rw
        (
          started-body foreground sys ldisks i,
          a,
          open_and_run-opened addresses sys.events ldisks t,
          daemon_open_sockets-sockets_of addresses l,
          q,
        )
        ((run_daemon-HasServed (n ∷ sks) sys.events ldisks h).at s tt)
