-- ===== src/Daemon/Served.antt =====
-- The daemon asks and logs the disks that it serves without a crash.
use hddtemp.Prelude.{ℕ, true, List, [], ◌∷◌, ◌≡◌, refl}
use hddtemp.Prelude.Int.{negsuc}
use hddtemp.Device.{
  BusType, error, bus_unknown, bus_sata, bus_ata, bus_scsi, Disk, GetTemp, gettemp_error,
  not_applicable, unknown, known, no_sensor, drive_sleep, Kernel, Sys,
}
use hddtemp.Device.Ensures.{Post, Ensures, Ensures-bind, Ensures-if, Ensures-pure}
use hddtemp.Device.Kept.{IsServed, ServedOn, Any, Runs, Ensures-given}
use hddtemp.Hddtemp.{Output, flags_of}
use hddtemp.Hddtemp.Served.{Shown, SameDrive, AllSame, AllServed, query-Answered}
use hddtemp.Daemon.Logs.{AllShown, IsLog, log_all-IsLog}
use hddtemp.Daemon.{time, is_due, ask, update_disk, daemon_update, daemon_syslog}

-- Another disk with the same model and entry.
pub ServedOn-fields :
    (b : BusType) (d d' : Disk)
    → d'.model ≡ d.model
    → d'.db_entry ≡ d.db_entry
    → ServedOn b d
    → ServedOn b d'
ServedOn-fields error d d' p q h = tt
ServedOn-fields bus_unknown d d' p q h = h
ServedOn-fields bus_sata d d' p q h = rw (p, q) h
ServedOn-fields bus_ata d d' p q h = rw (p, q) h
ServedOn-fields bus_scsi d d' p q h = rw p h

pub Shown-fields :
    (ret : GetTemp) (d d' : Disk)
    → d'.model ≡ d.model
    → d'.db_entry ≡ d.db_entry
    → Shown ret d
    → Shown ret d'
Shown-fields gettemp_error d d' p q h = tt
Shown-fields not_applicable d d' p q h = rw (p, q) h
Shown-fields unknown d d' p q h = rw (p, q) h
Shown-fields known d d' p q h = rw (p, q) h
Shown-fields no_sensor d d' p q h = rw (p, q) h
Shown-fields drive_sleep d d' p q h = rw (p, q) h

module _ {W : Type 0} (k : Kernel W) (clock : W → ℕ × W) where
  pub time-Runs : Runs (time k clock)
  unfolding time
  time-Runs = record { at = λ s q. tt }

  -- A disk that was asked: the same drive, its new result ready to be shown.
  ask-SameDrive :
      (o : Output) (dsk : Disk)
      → IsServed dsk
      → Ensures Any (ask k clock o dsk) (λ d s. SameDrive dsk d × Shown d.ret d)
  unfolding ask
  ask-SameDrive o dsk h =
      Ensures-bind
        (query-Answered k (flags_of o) dsk.bus (record dsk { value = negsuc 0 }) refl
          (ServedOn-fields dsk.bus dsk (record dsk { value = negsuc 0 }) refl refl h))
        λ r. Ensures-given λ a. Ensures-bind time-Runs λ now. Ensures-pure _ (λ s q. (
          record {
            drive = a.drive;
            model = a.model;
            bus = a.bus;
            served =
                ServedOn-fields r.1.bus r.1 (record r.1 { ret = r.0; last_time = now }) refl refl
                  a.served;
          },
          Shown-fields r.0 r.1 (record r.1 { ret = r.0; last_time = now }) refl refl a.shown,
        ))

  update_disk-SameDrive :
      (o : Output) (dsk : Disk)
      → IsServed dsk
      → Ensures Any (update_disk k clock o true dsk) (λ d s. SameDrive dsk d × Shown d.ret d)
  unfolding update_disk is_due
  update_disk-SameDrive o dsk h =
      Ensures-bind (Ensures-pure {P = λ due s. due ≡ true} true (λ s q. refl)) λ due.
        Ensures-given {C = due ≡ true} λ e. Ensures-if due (λ _. ask-SameDrive o dsk h) (λ f. cc)

  daemon_update-AllSame :
      (o : Output) (disks : List Disk)
      → AllServed disks
      → Ensures Any (daemon_update k clock o true disks) (λ ds s. AllSame disks ds × AllShown ds)
  unfolding daemon_update
  daemon_update-AllSame o [] h = Ensures-pure _ (λ s q. (tt, tt))
  daemon_update-AllSame o (d ∷ ds) h = Ensures-bind (update_disk-SameDrive o d h.0) λ d'.
      Ensures-given {C = SameDrive d d' × Shown d'.ret d'} λ same.
        Ensures-bind (daemon_update-AllSame o ds h.1) λ ds'.
          Ensures-given {C = AllSame ds ds' × AllShown ds'}
            λ rest. Ensures-pure _ (λ s q. ((same.0, rest.0), (same.1, rest.1)))

  -- On disks that can be served, `daemon_syslog` returns, whatever the kernel and the clock answer. The
  -- disks are left in their order, each with its drive, its model and its type, able to be served
  -- again, with a result that can be shown; and for each in turn one line is logged, which begins with the
  -- drive and a colon: an information if its temperature is known, a warning if there is none, and
  -- an error if it failed or has no S.M.A.R.T.
  pub daemon_syslog-AllSame :
      (o : Output) (disks : List Disk) (s : Sys W)
      → AllServed disks
      → Post
          (λ r s'. AllSame disks r.0 × AllShown r.0 × IsLog r.0 r.1)
          (daemon_syslog k clock o disks s)
  unfolding daemon_syslog
  daemon_syslog-AllSame o disks s h =
      (Ensures-bind (daemon_update-AllSame o disks h) λ ds.
          Ensures-given {C = AllSame disks ds × AllShown ds} λ same.
            Ensures-bind (log_all-IsLog o ds same.1)
              λ lines. Ensures-given λ i. Ensures-pure _ (λ s q. (same.0, same.1, i))).at
        s tt
