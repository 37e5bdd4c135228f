-- ===== src/Daemon/Trace.antt =====
-- src/daemon.c: what the daemon does for what the system reports, event by event, as a relation.
use hddtemp.Prelude.{
  ℕ, ◌+◌, ◌-◌, ◌<◌, Bool, true, false, Option, none, some, List, [], ◌∷◌, ◌≡◌, ◌&&◌, ltb, Bytes,
  if◌then◌else◌,
}
use hddtemp.Device.{Disk}
use hddtemp.Daemon.{Level}
use hddtemp.Daemon.Logs.{IsLog}
use hddtemp.Daemon.Safe.{AllStay, IsReply}
use hddtemp.Daemon.Staying.{AllStay-trans}
use hddtemp.Daemon.Loop.{
  Service, Event, select_failed, timed_out, ready, Action, waited, sent, logged, any_ready,
}

-- The timeout of `select` in a world: what is left until the next log, by the clock there, or none
-- without a log.
abbrev pub IsTimeout : {W : Type 0} → (W → ℕ × W) → Service → W → ℕ → Option ℕ → Type 0
IsTimeout clock v w next none = v.syslog_interval ≡ 0
IsTimeout clock v w next (some t) = (0 < v.syslog_interval) × (t ≡ next - (clock w).0)

-- The world behind the choice of a timeout: the clock was read if it logs.
abbrev pub chosen : {W : Type 0} → (W → ℕ × W) → Service → W → W
chosen clock v w = if ltb 0 v.syslog_interval then (clock w).1 else w

-- The events that the daemon has nothing to do for: the end of a wait without a log, no client, and
-- a socket when it does not listen or that is not ready.
abbrev pub IsIdle : Service → Event → Type 0
IsIdle v select_failed = ⊥
IsIdle v timed_out = v.syslog_interval ≡ 0
IsIdle v (ready sockets none) = Unit {0}
IsIdle v (ready sockets (some cfd)) = (v.tcp_daemon && any_ready sockets) ≡ false

-- What the daemon does on these disks in a world, with a log due at the time given, event by event: it waits,
-- for a time that the clock of this world fixes, and then ends, logs and starts its timer again, answers the
-- client, or does nothing. Only a log and an answer change the world in another way than by reading the clock.
pub data Serves {W : Type 0} (clock : W → ℕ × W) (v : Service) (sep : ℕ) (disks : List Disk)
    : W → ℕ → List Event → List Action → Type 0 where
  stopped : {w : W} {next : ℕ} → Serves clock v sep disks w next [] []
  fails :
      {w : W} {next : ℕ} {events : List Event} {t : Option ℕ}
      → IsTimeout clock v w next t
      → Serves clock v sep disks w next (select_failed ∷ events) (waited t ∷ [])
  logs :
      {w : W} {next : ℕ} {events : List Event} {actions : List Action} {t : Option ℕ}
      {lines : List (Level × Bytes)} (ds : List Disk) (w' : W)
      → IsTimeout clock v w next t
      → 0 < v.syslog_interval
      → AllStay disks ds
      → IsLog ds lines
      → Serves clock v sep disks (clock w').1 ((clock w').0 + v.syslog_interval) events actions
      → Serves clock v sep disks w next (timed_out ∷ events) (waited t ∷ logged lines ∷ actions)
  answers :
      {w : W} {next cfd : ℕ} {sockets : List Bool} {events : List Event} {actions : List Action}
      {t : Option ℕ} {reply : Bytes} (ds : List Disk) (w' : W)
      → IsTimeout clock v w next t
      → (v.tcp_daemon && any_ready sockets) ≡ true
      → AllStay disks ds
      → IsReply sep ds reply
      → Serves clock v sep disks w' next events actions
      → Serves clock v sep disks w next
          (ready sockets (some cfd) ∷ events)
          (waited t ∷ sent cfd reply ∷ actions)
  idles :
      {w : W} {next : ℕ} {event : Event} {events : List Event} {actions : List Action}
      {t : Option ℕ}
      → IsTimeout clock v w next t
      → IsIdle v event
      → Serves clock v sep disks (chosen clock v w) next events actions
      → Serves clock v sep disks w next (event ∷ events) (waited t ∷ actions)

-- What is done on disks that stay those of before is done on those.
pub Serves-back :
    {W : Type 0} {clock : W → ℕ × W} {v : Service} {sep : ℕ} {ds ds' : List Disk} {w : W} {next : ℕ}
    {events : List Event} {actions : List Action}
    → AllStay ds ds'
    → Serves clock v sep ds' w next events actions
    → Serves clock v sep ds w next events actions
Serves-back st stopped = stopped
Serves-back st (fails t) = fails t
Serves-back {ds} {ds'} st (logs ds'' w' t i h l s) =
    logs ds'' w' t i (AllStay-trans ds ds' ds'' st h) l (Serves-back st s)
Serves-back {ds} {ds'} st (answers ds'' w' t i h r s) =
    answers ds'' w' t i (AllStay-trans ds ds' ds'' st h) r (Serves-back st s)
Serves-back st (idles t i s) = idles t i (Serves-back st s)
