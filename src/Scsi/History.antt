-- ===== src/Scsi/History.antt =====
-- Which requests the SCSI driver makes, and what it remembers of `SG_IO`.
use hddtemp.Prelude.{
  ℕ, ◌+◌, not, Option, some, List, [], ◌==◌, ltb, ◌≡◌, ◌≢◌, refl, Bytes, get_or, set, bit_and,
}
use hddtemp.Device.{
  Disk, GetTemp, SgSupport, untried, unsupported, supported, Kernel, Sys, Dev, ◌>>=◌, pure,
  get_errno, close_disk, Request,
}
use hddtemp.Device.Ensures.{Post, Ensures, Ensures-bind, Ensures-if, Ensures-pure}
use hddtemp.Device.Log.{logged}
use hddtemp.ScsiCmds.{
  dxfer_to_dev, dxfer_from_dev, scsi_modesense, scsi_modeselect, scsi_logsense, scsi_smartsupport,
  scsi_smart_dexcpt_disable, exceptions_control_page, dexcpt, support_log_pages, temperature_page,
}
use hddtemp.Scsi.{
  scsi_entry, give_up, scsi_read_page, scsi_read_value, scsi_with_entry, scsi_get_temperature,
  lists_page,
}
use hddtemp.Scsi.Support.{History, Known, Decided, scsi_command-Decided}

module _ {W : Type 0} (k : Kernel W) (v : SgSupport) where
  -- The rules below carry `Decided` on.
  abbrev Keeps : {A : Type 0} → Dev (W × List Request) A → Type 0
  Keeps m = Ensures (Decided k v) m (λ a s. Decided k v s)

  known :
      {A : Type 0} {m : Dev (W × List Request) A}
      → Ensures (Known k v) m (λ a s. Decided k v s)
      → Keeps m
  known h = record { at = λ s q. h.at s q.0 }

  pure-Keeps : {A : Type 0} (a : A) → Keeps (pure a)
  pure-Keeps a = Ensures-pure a (λ s q. q)

  get_errno-Keeps : Keeps get_errno
  unfolding get_errno
  get_errno-Keeps = record { at = λ s q. q }

  give_up-Keeps :
      (dsk : Disk) (text : Bytes) (ret : GetTemp) → Keeps (give_up (logged k) dsk text ret)
  unfolding give_up close_disk ◌>>=◌
  give_up-Keeps dsk text ret = record { at = λ s q. q }

  fails-Keeps :
      (dsk : Disk) (text : ℕ → Bytes) (ret : GetTemp)
      → Keeps (get_errno >>= λ errno. give_up (logged k) dsk (text errno) ret)
  fails-Keeps dsk text ret =
      Ensures-bind get_errno-Keeps λ errno. give_up-Keeps dsk (text errno) ret

  scsi_logsense-Keeps :
      (device : Option ℕ) (pagenum n : ℕ) → Keeps (scsi_logsense (logged k) device pagenum n)
  unfolding scsi_logsense
  scsi_logsense-Keeps device pagenum n = known (scsi_command-Decided k v device _ _ dxfer_from_dev)

  scsi_modesense-Decided :
      (device : Option ℕ) (pagenum n : ℕ)
      → Ensures (Known k v) (scsi_modesense (logged k) device pagenum n) (λ r s. Decided k v s)
  unfolding scsi_modesense
  scsi_modesense-Decided device pagenum n =
      Ensures-bind (scsi_command-Decided k v device _ _ dxfer_from_dev) λ r.
        Ensures-if (r.0 == 0)
          (λ _.
            Ensures-if (ltb (get_or r.1 0 0) (get_or r.1 3 0 + 5)) (λ _. pure-Keeps _)
              (λ _. pure-Keeps _))
          (λ _. pure-Keeps _)

  scsi_modeselect-Keeps :
      (device : Option ℕ) (buffer : Bytes) → Keeps (scsi_modeselect (logged k) device buffer)
  unfolding scsi_modeselect
  scsi_modeselect-Keeps device buffer =
      Ensures-bind (known (scsi_command-Decided k v device _ _ dxfer_to_dev)) λ r. pure-Keeps _

  scsi_smartsupport-Decided :
      (device : Option ℕ)
      → Ensures (Known k v) (scsi_smartsupport (logged k) device) (λ r s. Decided k v s)
  unfolding scsi_smartsupport
  scsi_smartsupport-Decided device =
      Ensures-bind (scsi_modesense-Decided device exceptions_control_page 255) λ r. pure-Keeps _

  scsi_smart_dexcpt_disable-Keeps :
      (device : Option ℕ) → Keeps (scsi_smart_dexcpt_disable (logged k) device)
  unfolding scsi_smart_dexcpt_disable
  scsi_smart_dexcpt_disable-Keeps device =
      Ensures-bind (known (scsi_modesense-Decided device exceptions_control_page 255)) λ r.
        Ensures-if (not (r.0 == 0)) (λ _. pure-Keeps _)
          (λ _.
            Ensures-if (dexcpt (logged k) r.1)
              (λ _.
                scsi_modeselect-Keeps device
                  (set (set r.1 14 (bit_and (get_or r.1 14 0) 0xf7)) 15 0x04))
              (λ _. pure-Keeps _))

  scsi_read_page-Keeps : (dsk : Disk) → Keeps (scsi_read_page (logged k) dsk)
  unfolding scsi_read_page
  scsi_read_page-Keeps dsk =
      Ensures-bind (scsi_logsense-Keeps dsk.fd temperature_page 1024)
        λ page. Ensures-if (not (page.0 == 0)) (λ _. fails-Keeps dsk _ _) (λ _. pure-Keeps _)

  scsi_read_value-Keeps : (dsk : Disk) → Keeps (scsi_read_value (logged k) dsk)
  unfolding scsi_read_value
  scsi_read_value-Keeps dsk =
      Ensures-bind (scsi_logsense-Keeps dsk.fd support_log_pages 1024) λ pages.
        Ensures-if (not (pages.0 == 0)) (λ _. fails-Keeps dsk _ _)
          (λ _.
            Ensures-if (lists_page (get_or pages.1 3 0) pages.1 4) (λ _. scsi_read_page-Keeps dsk)
              (λ _. pure-Keeps _))

  scsi_with_entry-Decided :
      (dsk : Disk) → Ensures (Known k v) (scsi_with_entry (logged k) dsk) (λ r s. Decided k v s)
  unfolding scsi_with_entry
  scsi_with_entry-Decided dsk = Ensures-bind (scsi_smartsupport-Decided dsk.fd) λ smart.
      Ensures-if (not smart) (λ _. give_up-Keeps dsk _ _)
        (λ _. Ensures-bind (scsi_smart_dexcpt_disable-Keeps dsk.fd) λ ret.
          Ensures-if (not (ret == 0)) (λ _. fails-Keeps dsk _ _) (λ _. scsi_read_value-Keeps dsk))

-- From a state with no request made, `scsi_get_temperature` returns and leaves it decided whether
-- `SG_IO` is supported. If that was decided before, it stays, and every request goes the way that it
-- says. If not, the first request tries `SG_IO`; then either it is supported and every request goes
-- that way, or it is not, and every request but the first goes by `SCSI_IOCTL_SEND_COMMAND`.
pub scsi_get_temperature-History :
    {W : Type 0} (k : Kernel W) (dsk : Disk) (s : Sys (W × List Request))
    → s.world.1 ≡ []
    → Post
        (λ r s'. History s.sg_support s'.sg_support s'.world.1 × (s'.sg_support ≢ untried))
        (scsi_get_temperature (logged k) dsk s)
unfolding scsi_get_temperature
scsi_get_temperature-History k dsk s e =
    (scsi_with_entry-Decided k s.sg_support (record dsk { db_entry = some scsi_entry })).at s
      (rw e (starts s.sg_support))
  where
    starts : (v : SgSupport) → History v v []
    starts untried = refl
    starts supported = tt
    starts unsupported = tt
