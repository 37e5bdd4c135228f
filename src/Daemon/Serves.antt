-- ===== src/Daemon/Serves.antt =====
-- src/daemon.c: the daemon's loop refines the relation of what the system reports and what it does.
use mathlib.Core.Path.{subst}
use hddtemp.Prelude.{
  ℕ, ◌<◌, Bool, true, false, Option, none, some, List, [], ◌∷◌, ◌++◌, ◌≡◌, ◌≢◌, refl, ◌&&◌, ltb,
  ltb→lt, arith, Bool-cases, inl, inr,
}
use hddtemp.Device.{Kernel, Sys, Dev, ◌>>=◌, pure}
use hddtemp.Device.Ensures.{Post, Ensures, Ensures-bind, Ensures-if, Ensures-pure}
use hddtemp.Smart.Small.{HasBytes}
use hddtemp.Hddtemp.{Output}
use hddtemp.Device.Silent.{Ensures-from}
use hddtemp.Daemon.{time}
use hddtemp.Daemon.Safe.{AllReady, AllStay, AllStay-Ready, send_msg-AllStay, daemon_syslog-AllStay}
use hddtemp.Daemon.Staying.{AllStay-trans, AllStay-refl}
use hddtemp.Daemon.Loop.{
  Service, Event, select_failed, timed_out, ready, Action, waited, Running, select_timeout,
  any_ready, serve, log_round, next_timeout, daemon_round, daemon_loop,
}
use hddtemp.Daemon.Trace.{
  IsTimeout, chosen, IsIdle, Serves, stopped, fails, logs, answers, idles, Serves-back,
}

ready-IsIdle :
    (v : Service) (sockets : List Bool) (client : Option ℕ)
    → (v.tcp_daemon && any_ready sockets) ≡ false
    → IsIdle v (ready sockets client)
ready-IsIdle v sockets none e = tt
ready-IsIdle v sockets (some cfd) e = e

module _ {W : Type 0} (k : Kernel W) (bytes : HasBytes k) (clock : W → ℕ × W) (v : Service)
    (o : Output) where
  -- A round for the event, behind a wait from the world `w`, puts its actions in front of what is then done.
  abbrev Extends : W → Running → Event → Running × List Action → Sys W → Type 0
  Extends w st event r s =
      AllStay st.disks r.0.disks
      × ((t : Option ℕ) (events : List Event) (actions : List Action)
          → IsTimeout clock v w st.next_time t
          → Serves clock v o.separator st.disks s.world r.0.next_time events actions
          → Serves clock v o.separator st.disks w st.next_time (event ∷ events)
              (waited t ∷ (r.1 ++ actions)))

  -- The state stands in the world.
  abbrev In : W → Sys W → Type 0
  In w s = s.world ≡ w

  abbrev Round : W → Running → Event → Dev W (Running × List Action) → Type 0
  Round w st event m = Ensures (In (chosen clock v w)) m (λ r s. Extends w st event r s)

  idle-Extends :
      (w : W) (st : Running) (event : Event)
      → AllReady st.disks
      → IsIdle v event
      → Round w st event (pure (st, []))
  idle-Extends w st event h i = Ensures-pure _ (λ s q. (
    AllStay-refl st.disks h,
    λ t es acts x rest.
        idles x i
          (subst (λ w'. Serves clock v o.separator st.disks w' st.next_time es acts) q rest),
  ))

  serve-Extends :
      (w : W) (st : Running) (sockets : List Bool) (client : Option ℕ)
      → AllReady st.disks
      → (v.tcp_daemon && any_ready sockets) ≡ true
      → Round w st (ready sockets client) (serve k clock o st client)
  unfolding serve
  serve-Extends w st sockets none h e = idle-Extends w st (ready sockets none) h tt
  serve-Extends w st sockets (some cfd) h e =
      Ensures-bind (Ensures-from (send_msg-AllStay k bytes clock o st.disks h))
        λ r. Ensures-pure _ (λ s a. (a.0, λ t es acts x rest. answers r.0 s.world x e a.0 a.1 rest))

  log_round-Extends :
      (w : W) (st : Running)
      → AllReady st.disks
      → 0 < v.syslog_interval
      → Round w st timed_out (log_round k clock v o st)
  unfolding log_round time pure ◌>>=◌
  log_round-Extends w st h i =
      Ensures-bind (Ensures-from (daemon_syslog-AllStay k bytes clock o st.disks h))
        λ r. record { at = λ s a. (a.0, λ t es acts x rest. logs r.0 s.world x i a.0 a.1 rest) }

  daemon_round-Extends :
      (w : W) (st : Running) (event : Event)
      → AllReady st.disks
      → event ≢ select_failed
      → Round w st event (daemon_round k clock v o st event)
  unfolding daemon_round
  daemon_round-Extends w st select_failed h n = absurd (n refl)
  daemon_round-Extends w st timed_out h n =
      Ensures-if (ltb 0 v.syslog_interval)
        (λ e. log_round-Extends w st h (ltb→lt 0 v.syslog_interval e))
        (λ e. idle-Extends w st timed_out h (ground arith))
  daemon_round-Extends w st (ready sockets client) h n =
      Ensures-if (v.tcp_daemon && any_ready sockets) (λ e. serve-Extends w st sockets client h e)
        (λ e. idle-Extends w st (ready sockets client) h (ready-IsIdle v sockets client e))

  next_timeout-IsTimeout :
      (w : W) (st : Running)
      → Ensures
          (In w)
          (next_timeout k clock v st)
          (λ t s. IsTimeout clock v w st.next_time t × In (chosen clock v w) s)
  unfolding next_timeout select_timeout time pure ◌>>=◌
  next_timeout-IsTimeout w st = elim (Bool-cases (ltb 0 v.syslog_interval)) [
    | inl e ↦
        rw e
          (record { at = λ s q. ((ltb→lt 0 v.syslog_interval e, rw q (ground arith)), rw q refl) })
    | inr e ↦ rw e (record { at = λ s q. (ground arith, q) })
  ]

  -- The loop from a state on.
  abbrev Loops : W → Running → List Event → Dev W (Running × List Action) → Type 0
  Loops w st events m = Ensures (In w) m (λ r s.
      AllStay st.disks r.0.disks × Serves clock v o.separator st.disks w st.next_time events r.1)

  -- A round and the rest of the loop.
  then-Serves :
      (w : W) (st : Running) (event : Event) (events : List Event)
      → AllReady st.disks
      → event ≢ select_failed
      → ((w' : W) (st' : Running)
          → AllReady st'.disks
          → Loops w' st' events (daemon_loop k clock v o st' events))
      → Loops w st (event ∷ events) (do
        timeout ← next_timeout k clock v st
        r ← daemon_round k clock v o st event
        rest ← daemon_loop k clock v o r.0 events
        pure (rest.0, waited timeout ∷ (r.1 ++ rest.1)))
  then-Serves w st event events h n loop = Ensures-bind (next_timeout-IsTimeout w st) λ t. record {
    at = λ s₁ q.
        (Ensures-bind (daemon_round-Extends w st event h n) λ r. record {
          at = λ s₂ x.
              (Ensures-bind (loop s₂.world r.0 (AllStay-Ready st.disks r.0.disks x.0)) λ rest.
                  Ensures-pure _ (λ s l. (
                    AllStay-trans st.disks r.0.disks rest.0.disks x.0 l.0,
                    x.1 t events rest.1 q.0 (Serves-back x.0 l.1),
                  ))).at
                s₂ refl;
        }).at
          s₁ q.1;
  }

  pub loop-Serves :
      (events : List Event) (w : W) (st : Running)
      → AllReady st.disks
      → Loops w st events (daemon_loop k clock v o st events)
  unfolding daemon_loop
  loop-Serves [] w st h = Ensures-pure _ (λ s q. (AllStay-refl st.disks h, stopped))
  loop-Serves (select_failed ∷ events) w st h =
      Ensures-bind (next_timeout-IsTimeout w st)
        λ t. Ensures-pure _ (λ s q. (AllStay-refl st.disks h, fails q.0))
  loop-Serves (timed_out ∷ events) w st h =
      then-Serves w st timed_out events h (λ e. cc) (loop-Serves events)
  loop-Serves (ready sockets client ∷ events) w st h =
      then-Serves w st (ready sockets client) events h (λ e. cc) (loop-Serves events)

  -- On a kernel that fills its buffers with bytes, and on disks that the daemon can serve, whose drive and
  -- model have at most 120 bytes together, the loop returns for whatever the clock gives and the system
  -- reports, with the disks in their order, each the same drive and able to be served again. What it has done
  -- is related to the events one by one: each time it waits, without a timeout if it does not log, and else
  -- for the time at which the next log is due less what the clock gives in the world that it has come to, or
  -- 0 if that is past. When the wait ends without a socket and it logs, it logs of each disk in turn one line,
  -- and the next log is due an interval behind the clock's time in a world after it. When a socket is
  -- ready and gives a client, that client gets of each disk in turn one whole text. Otherwise it does
  -- nothing, and it ends when `select` fails.
  pub daemon_loop-Serves :
      (events : List Event) (st : Running) (s : Sys W)
      → AllReady st.disks
      → Post
          (λ r s'.
            AllStay st.disks r.0.disks
            × Serves clock v o.separator st.disks s.world st.next_time events r.1)
          (daemon_loop k clock v o st events s)
  daemon_loop-Serves events st s h = (loop-Serves events s.world st h).at s refl
