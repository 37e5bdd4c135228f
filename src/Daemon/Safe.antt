-- ===== src/Daemon/Safe.antt =====
-- src/daemon.c: every disk of the daemon stays ready to be asked, sent and logged.
use hddtemp.Prelude.{ℕ, Bool, true, false, List, [], ◌∷◌, ◌++◌, ◌≡◌, refl, ap, Bytes}
use hddtemp.Prelude.Int.{negsuc}
use hddtemp.Device.{
  BusType, error, bus_unknown, bus_sata, bus_ata, bus_scsi, Disk, GetTemp, Kernel, Sys, Flags,
}
use hddtemp.Device.Ensures.{Post, Ensures, Ensures-both, Ensures-bind, Ensures-if, Ensures-pure}
use hddtemp.Device.Kept.{IsServed, ServedOn, Any, Runs, Runs-pure, Ensures-given}
use hddtemp.Smart.Small.{HasBytes, IsSmall, LeavesSmall, LeavesSmall-pure}
use hddtemp.Ata.Small.{ata_get_temperature-IsSmall}
use hddtemp.Sata.Small.{sata_get_temperature-IsSmall}
use hddtemp.Scsi.Small.{scsi_get_temperature-IsSmall}
use hddtemp.Hddtemp.{Output, flags_of, bus_get_temperature, query}
use hddtemp.Hddtemp.Served.{Shown, SameDrive, AllSame, Answered, query-Answered}
use hddtemp.Daemon.{
  is_due, ask, update_disk, daemon_update, send_all, daemon_send_msg, daemon_syslog,
}
use hddtemp.Daemon.Logs.{AllShown, IsLog, log_all-IsLog}
use hddtemp.Daemon.Served.{ServedOn-fields, Shown-fields, time-Runs}
use hddtemp.Daemon.Texts.{FitsMsg, IsText, daemon_msg-Fits, write_msg-whole}

-- A disk that the daemon can ask, and whose last result it can show, in the room that `msg` has.
pub record IsReady (dsk : Disk) : Type 0 where
  pub served : IsServed dsk
  pub shown : Shown dsk.ret dsk
  pub small : IsSmall dsk.value
  pub fits : FitsMsg dsk

abbrev pub AllReady : List Disk → Type 0
AllReady [] = Unit {0}
AllReady (d ∷ ds) = IsReady d × AllReady ds

-- The same drive, ready.
pub record StaysReady (dsk dsk' : Disk) : Type 0 where
  pub same : SameDrive dsk dsk'
  pub is_ready : IsReady dsk'

abbrev pub AllStay : List Disk → List Disk → Type 0
AllStay [] [] = Unit {0}
AllStay [] (d ∷ ds) = ⊥
AllStay (d ∷ ds) [] = ⊥
AllStay (d ∷ ds) (d' ∷ ds') = StaysReady d d' × AllStay ds ds'

pub AllStay-Same : (ds ds' : List Disk) → AllStay ds ds' → AllSame ds ds'
AllStay-Same [] [] h = tt
AllStay-Same [] (d ∷ ds) h = absurd h
AllStay-Same (d ∷ ds) [] h = absurd h
AllStay-Same (d ∷ ds) (d' ∷ ds') h = (h.0.same, AllStay-Same ds ds' h.1)

pub AllStay-Ready : (ds ds' : List Disk) → AllStay ds ds' → AllReady ds'
AllStay-Ready [] [] h = tt
AllStay-Ready [] (d ∷ ds) h = absurd h
AllStay-Ready (d ∷ ds) [] h = absurd h
AllStay-Ready (d ∷ ds) (d' ∷ ds') h = (h.0.is_ready, AllStay-Ready ds ds' h.1)

AllReady-Shown : (disks : List Disk) → AllReady disks → AllShown disks
AllReady-Shown [] h = tt
AllReady-Shown (d ∷ ds) h = (h.0.shown, AllReady-Shown ds h.1)

-- A reply: of each disk in turn a text, whole, between two separators.
abbrev pub IsReply : ℕ → List Disk → Bytes → Type 0
IsReply sep [] reply = reply ≡ []
IsReply sep (d ∷ ds) reply =
    (text : Bytes) × (rest : Bytes) × ((reply ≡ (sep ∷ (text ++ sep ∷ [])) ++ rest)
      × IsText sep d text
      × IsReply sep ds rest)

module _ {W : Type 0} where
  send_all-IsReply :
      (o : Output) (disks : List Disk)
      → AllReady disks
      → Ensures {W = W} Any (send_all o disks) (λ reply s. IsReply o.separator disks reply)
  unfolding send_all
  send_all-IsReply o [] h = Ensures-pure _ (λ s q. refl)
  send_all-IsReply o (d ∷ ds) h =
      Ensures-bind (daemon_msg-Fits o d.ret d h.0.shown h.0.small h.0.fits) λ text.
        Ensures-given λ t. Ensures-bind (write_msg-whole o.separator text t.0) λ reply.
          Ensures-given λ e.
            Ensures-bind (send_all-IsReply o ds h.1) λ rest.
              Ensures-given λ i. Ensures-pure _ (λ s q. (text, rest, (ap (◌++ rest) e, t, i)))

module _ {W : Type 0} (k : Kernel W) (bytes : HasBytes k) where
  -- On a kernel that fills its buffers with bytes, a query of a disk that can be served leaves a value that is
  -- -1 or a byte if it was one before: whichever driver answers, and whatever the result.
  pub query-IsSmall :
      (flags : Flags) (b : BusType) (dsk : Disk)
      → ServedOn b dsk
      → IsSmall dsk.value
      → LeavesSmall (query k flags b dsk)
  unfolding query bus_get_temperature
  query-IsSmall flags error dsk h v = LeavesSmall-pure _ dsk v
  query-IsSmall flags bus_unknown dsk h v = absurd h
  query-IsSmall flags bus_sata dsk h v = sata_get_temperature-IsSmall k bytes flags dsk v h.1
  query-IsSmall flags bus_ata dsk h v = ata_get_temperature-IsSmall k bytes flags dsk v h.1
  query-IsSmall flags bus_scsi dsk h v = scsi_get_temperature-IsSmall k bytes dsk v

  module _ (clock : W → ℕ × W) (o : Output) where
    Answered-StaysReady :
        (dsk : Disk) (r : GetTemp × Disk) (now : ℕ)
        → FitsMsg dsk
        → Answered (record dsk { value = negsuc 0 }) r
        → IsSmall r.1.value
        → StaysReady dsk (record r.1 { ret = r.0; last_time = now })
    Answered-StaysReady dsk r now f a v =
        let d : Disk = record r.1 { ret = r.0; last_time = now } in
        let served : IsServed d = ServedOn-fields r.1.bus r.1 d refl refl a.served in
        record {
          same = record { drive = a.drive; model = a.model; bus = a.bus; served = served };
          is_ready = record {
            served = served;
            shown = Shown-fields r.0 r.1 d refl refl a.shown;
            small = v;
            fits = rw (a.drive, a.model) f;
          };
        }

    IsReady-Stays : (dsk : Disk) → IsReady dsk → StaysReady dsk dsk
    IsReady-Stays dsk h = record {
      same = record { drive = refl; model = refl; bus = refl; served = h.served };
      is_ready = h;
    }

    is_due-Runs : (nocache : Bool) (dsk : Disk) → Runs (is_due k clock nocache dsk)
    unfolding is_due
    is_due-Runs true dsk = Runs-pure _
    is_due-Runs false dsk = Ensures-bind (time-Runs k clock) λ now. Runs-pure _

    ask-StaysReady :
        (dsk : Disk) → IsReady dsk → Ensures Any (ask k clock o dsk) (λ d s. StaysReady dsk d)
    unfolding ask
    ask-StaysReady dsk h =
        let asked : Disk = record dsk { value = negsuc 0 } in
        let served : IsServed asked = ServedOn-fields dsk.bus dsk asked refl refl h.served in
        Ensures-bind
          (Ensures-both (query-Answered k (flags_of o) dsk.bus asked refl served)
            (query-IsSmall (flags_of o) dsk.bus asked served refl))
          λ r. Ensures-given λ a.
            Ensures-bind (time-Runs k clock)
              λ now. Ensures-pure _ (λ s q. Answered-StaysReady dsk r now h.fits a.0 a.1)

    update_disk-StaysReady :
        (nocache : Bool) (dsk : Disk)
        → IsReady dsk
        → Ensures Any (update_disk k clock o nocache dsk) (λ d s. StaysReady dsk d)
    unfolding update_disk
    update_disk-StaysReady nocache dsk h = Ensures-bind (is_due-Runs nocache dsk) λ due.
        Ensures-if due (λ _. ask-StaysReady dsk h)
          (λ _. Ensures-pure _ (λ s q. IsReady-Stays dsk h))

    daemon_update-AllStay :
        (nocache : Bool) (disks : List Disk)
        → AllReady disks
        → Ensures Any (daemon_update k clock o nocache disks) (λ ds s. AllStay disks ds)
    unfolding daemon_update
    daemon_update-AllStay nocache [] h = Ensures-pure _ (λ s q. tt)
    daemon_update-AllStay nocache (d ∷ ds) h =
        Ensures-bind (update_disk-StaysReady nocache d h.0) λ d'. Ensures-given λ stays.
          Ensures-bind (daemon_update-AllStay nocache ds h.1)
            λ ds'. Ensures-given λ rest. Ensures-pure _ (λ s q. (stays, rest))

    pub send_msg-AllStay :
        (disks : List Disk)
        → AllReady disks
        → Ensures Any
            (daemon_send_msg k clock o disks)
            (λ r s. AllStay disks r.0 × IsReply o.separator r.0 r.1)
    unfolding daemon_send_msg
    send_msg-AllStay disks h = Ensures-bind (daemon_update-AllStay false disks h) λ ds.
        Ensures-given λ stay.
          Ensures-bind (send_all-IsReply o ds (AllStay-Ready disks ds stay))
            λ reply. Ensures-given λ i. Ensures-pure _ (λ s q. (stay, i))

    pub daemon_syslog-AllStay :
        (disks : List Disk)
        → AllReady disks
        → Ensures Any (daemon_syslog k clock o disks) (λ r s. AllStay disks r.0 × IsLog r.0 r.1)
    unfolding daemon_syslog
    daemon_syslog-AllStay disks h = Ensures-bind (daemon_update-AllStay true disks h) λ ds.
        Ensures-given λ stay.
          Ensures-bind (log_all-IsLog o ds (AllReady-Shown ds (AllStay-Ready disks ds stay)))
            λ lines. Ensures-given λ i. Ensures-pure _ (λ s q. (stay, i))

    -- On a kernel that fills its buffers with bytes, and on disks that can be served, with a value that
    -- is -1 or a byte, a result that can be shown, and a drive and model of at most 120 bytes together,
    -- `daemon_send_msg` returns whatever the clock gives: no text overruns `msg`. The disks are left in
    -- their order, each the same drive and again such a disk, and the client gets of each in turn one
    -- text whole, between two separators, that begins with the drive and a separator.
    pub daemon_send_msg-IsReply :
        (disks : List Disk) (s : Sys W)
        → AllReady disks
        → Post
            (λ r s'. AllStay disks r.0 × IsReply o.separator r.0 r.1)
            (daemon_send_msg k clock o disks s)
    daemon_send_msg-IsReply disks s h = (send_msg-AllStay disks h).at s tt
