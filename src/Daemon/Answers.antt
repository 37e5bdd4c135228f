-- ===== src/Daemon/Answers.antt =====
-- src/daemon.c: the loop of the daemon answers each client.
use hddtemp.Prelude.{
  ℕ, true, false, List, [], ◌∷◌, ◌++◌, ◌≡◌, refl, ap, none, some, Bytes, if◌then◌else◌, ◌&&◌,
}
use hddtemp.Device.{Disk, Kernel, Sys}
use hddtemp.Device.Ensures.{Post, Ensures-weaken}
use hddtemp.Smart.Small.{HasBytes}
use hddtemp.Hddtemp.{Output}
use hddtemp.Daemon.Safe.{AllReady, AllStay, IsReply}
use hddtemp.Daemon.Loop.{
  Service, Event, select_failed, timed_out, ready, Action, waited, sent, logged, Running, any_ready,
  daemon_loop,
}
use hddtemp.Daemon.Trace.{Serves, IsIdle, stopped, fails, logs, answers, idles}
use hddtemp.Daemon.Serves.{loop-Serves}

-- A reply about the disks as they stay is one about the disks as they were.
IsReply-back :
    (sep : ℕ) (ds ds' : List Disk) (reply : Bytes)
    → AllStay ds ds'
    → IsReply sep ds' reply
    → IsReply sep ds reply
IsReply-back sep [] [] reply h i = i
IsReply-back sep [] (d' ∷ ds') reply h i = absurd h
IsReply-back sep (d ∷ ds) [] reply h i = absurd h
IsReply-back sep (d ∷ ds) (d' ∷ ds') reply h i =
    let (text, rest, (e, (short, (more, t)), r)) = i in
    (text, rest, (e, (short, (more, rw (← h.0.same.drive) t)), IsReply-back sep ds ds' rest h.1 r))

-- The clients that `accept` gives to the daemon, in their order, until `select` fails.
abbrev pub clients : Service → List Event → List ℕ
clients v [] = []
clients v (select_failed ∷ events) = []
clients v (timed_out ∷ events) = clients v events
clients v (ready sockets client ∷ events) =
    (if v.tcp_daemon && any_ready sockets
      then elim client [ none ↦ [] | some cfd ↦ cfd ∷ [] ]
      else [])
    ++ clients v events

-- The clients that were sent something, in their order.
abbrev pub answered : List Action → List ℕ
answered [] = []
answered (waited t ∷ actions) = answered actions
answered (sent cfd reply ∷ actions) = cfd ∷ answered actions
answered (logged lines ∷ actions) = answered actions

-- All that was sent are replies about the disks.
abbrev pub AllReplies : ℕ → List Disk → List Action → Type 0
AllReplies sep ds [] = Unit {0}
AllReplies sep ds (waited t ∷ actions) = AllReplies sep ds actions
AllReplies sep ds (sent cfd reply ∷ actions) = IsReply sep ds reply × AllReplies sep ds actions
AllReplies sep ds (logged lines ∷ actions) = AllReplies sep ds actions

Serves-AllReplies :
    {W : Type 0} {clock : W → ℕ × W} {v : Service} {sep : ℕ} {disks : List Disk} {w : W} {next : ℕ}
    {events : List Event} {actions : List Action}
    → Serves clock v sep disks w next events actions
    → AllReplies sep disks actions
Serves-AllReplies stopped = tt
Serves-AllReplies (fails w) = tt
Serves-AllReplies (logs ds w' t i h l s) = Serves-AllReplies s
Serves-AllReplies {sep} {disks} (answers {reply} ds w' t e h r s) =
    (IsReply-back sep disks ds reply h r, Serves-AllReplies s)
Serves-AllReplies (idles w i s) = Serves-AllReplies s

-- Nobody is answered for an event that the daemon has nothing to do for.
idle-clients :
    (v : Service) (event : Event) (events : List Event)
    → IsIdle v event
    → clients v (event ∷ events) ≡ clients v events
idle-clients v select_failed events i = absurd i
idle-clients v timed_out events i = refl
idle-clients v (ready sockets none) events i =
    elim (v.tcp_daemon && any_ready sockets)
      as (λ b. (if b then [] else []) ++ clients v events ≡ clients v events) [
        | true ↦ refl
        | false ↦ refl
      ]
idle-clients v (ready sockets (some cfd)) events i = rw i refl

Serves-answered :
    {W : Type 0} {clock : W → ℕ × W} {v : Service} {sep : ℕ} {disks : List Disk} {w : W} {next : ℕ}
    {events : List Event} {actions : List Action}
    → Serves clock v sep disks w next events actions
    → answered actions ≡ clients v events
Serves-answered stopped = refl
Serves-answered (fails w) = refl
Serves-answered (logs ds w' t i h l s) = Serves-answered s
Serves-answered {v} (answers {cfd} ds w' t e h r s) = rw e (ap (cfd ∷◌) (Serves-answered s))
Serves-answered {v} (idles {event} {events} w i s) =
    rw (idle-clients v event events i) (Serves-answered s)

-- What a run of the loop on the disks does, for the clients: the disks that it leaves, and the actions.
pub record Answers (sep : ℕ) (disks : List Disk) (cfds : List ℕ) (r : Running × List Action)
    : Type 0 where
  pub stay : AllStay disks r.0.disks
  pub replies : AllReplies sep disks r.1
  pub in_order : answered r.1 ≡ cfds

pub Serves-Answers :
    {W : Type 0} {clock : W → ℕ × W} {v : Service} {sep : ℕ} {disks : List Disk} {w : W} {next : ℕ}
    {events : List Event} {actions : List Action} (st : Running)
    → AllStay disks st.disks
    → Serves clock v sep disks w next events actions
    → Answers sep disks (clients v events) (st, actions)
Serves-Answers st stay s = record {
  stay = stay;
  replies = Serves-AllReplies s;
  in_order = Serves-answered s;
}

module _ {W : Type 0} (k : Kernel W) (bytes : HasBytes k) (clock : W → ℕ × W) (v : Service)
    (o : Output) where
  -- On a kernel that fills its buffers with bytes, and on disks that the daemon can serve, whose drive
  -- and model have at most 120 bytes together, the loop returns for whatever the clock gives and
  -- `select` and `accept` report. Each client that `accept` gave up to the first failure of `select`,
  -- and nobody else, is answered, in the order they came; each answer has of each disk in turn one
  -- whole text that begins with the drive; and the disks are left in their order, each the same drive
  -- and able to be served again.
  pub daemon_loop-Answers :
      (events : List Event) (st : Running) (s : Sys W)
      → AllReady st.disks
      → Post
          (λ r s'. Answers o.separator st.disks (clients v events) r)
          (daemon_loop k clock v o st events s)
  daemon_loop-Answers events st s h =
      (Ensures-weaken (loop-Serves k bytes clock v o events s.world st h)
          (λ r s' (stay, a). Serves-Answers r.0 stay a)).at
        s refl
