-- ===== src/Daemon/Loop.antt =====
-- `do_daemon_mode` of src/daemon.c, from the start of the timers on.
use hddtemp.Prelude.{
  ℕ, ◌+◌, ◌-◌, Bool, false, ◌&&◌, ◌||◌, Option, none, some, List, [], ◌∷◌, ◌++◌, ltb, if◌then◌else◌,
  Bytes,
}
use hddtemp.Device.{Disk, Kernel, Dev, ◌>>=◌, pure}
use hddtemp.Hddtemp.{Output}
use hddtemp.Daemon.{Level, time, daemon_send_msg, daemon_syslog}

-- `tcp_daemon` and `syslog_interval`; the interval is 0 or positive.
pub record Service : Type 0 where
  pub tcp_daemon : Bool
  pub syslog_interval : ℕ

-- What a call of `select` gives, and what `accept` gives behind it.
pub data Event : Type 0 where
  -- -1
  select_failed : Event
  -- 0
  timed_out : Event
  -- for each socket whether it is ready, and the client of the first that is
  ready : List Bool → Option ℕ → Event

-- What the daemon does for others to see, and its waiting for them.
pub data Action : Type 0 where
  -- for `select`: the timeout in seconds, if there is one
  waited : Option ℕ → Action
  -- to the client
  sent : ℕ → Bytes → Action
  logged : List (Level × Bytes) → Action

-- What the loop carries.
pub record Running : Type 0 where
  pub disks : List Disk
  pub next_time : ℕ

-- The timeout of `select` in seconds, when it logs.
unfoldable pub select_timeout : ℕ → ℕ → ℕ
select_timeout next_time current_time =
    if ltb current_time next_time then next_time - current_time else 0

unfoldable pub any_ready : List Bool → Bool
any_ready [] = false
any_ready (b ∷ l) = b || any_ready l

module _ {W : Type 0} (k : Kernel W) (clock : W → ℕ × W) where
  -- The timers; `year_before` is what `gmtime` and `mktime` make of a time.
  unfoldable pub start_timers : (ℕ → ℕ) → List Disk → Dev W (List Disk)
  start_timers year_before [] = pure []
  start_timers year_before (dsk ∷ ldisks) = do
    now ← time k clock
    rest ← start_timers year_before ldisks
    pure (record dsk { last_time = year_before now } ∷ rest)

  -- The timeout that `select` is given.
  unfoldable pub next_timeout : Service → Running → Dev W (Option ℕ)
  unfolding select_timeout
  next_timeout v st =
      if ltb 0 v.syslog_interval
      then (do now ← time k clock; pure (some (select_timeout st.next_time now)))
      else pure none

  -- A client, if there is one.
  unfoldable pub serve : Output → Running → Option ℕ → Dev W (Running × List Action)
  serve o st none = pure (st, [])
  serve o st (some cfd) = do
    r ← daemon_send_msg k clock o st.disks
    pure (record st { disks = r.0 }, sent cfd r.1 ∷ [])

  unfoldable pub log_round : Service → Output → Running → Dev W (Running × List Action)
  log_round v o st = do
    r ← daemon_syslog k clock o st.disks
    now ← time k clock
    pure (record { disks = r.0; next_time = now + v.syslog_interval }, logged r.1 ∷ [])

  -- A round of the loop behind `select`, unless it failed.
  unfoldable pub daemon_round : Service → Output → Running → Event → Dev W (Running × List Action)
  unfolding serve log_round any_ready
  daemon_round v o st select_failed = pure (st, [])
  daemon_round v o st timed_out =
      if ltb 0 v.syslog_interval then log_round v o st else pure (st, [])
  daemon_round v o st (ready sockets client) =
      if v.tcp_daemon && any_ready sockets then serve o st client else pure (st, [])

  -- The loop, over the events up to a signal.
  unfoldable pub daemon_loop :
      Service → Output → Running → List Event → Dev W (Running × List Action)
  unfolding daemon_round next_timeout
  daemon_loop v o st [] = pure (st, [])
  daemon_loop v o st (select_failed ∷ events) = do
    timeout ← next_timeout v st
    pure (st, waited timeout ∷ [])
  daemon_loop v o st (event ∷ events) = do
    timeout ← next_timeout v st
    r ← daemon_round v o st event
    rest ← daemon_loop v o r.0 events
    pure (rest.0, waited timeout ∷ (r.1 ++ rest.1))
