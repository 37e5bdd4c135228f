-- ===== src/Scsi/Kept.antt =====
-- `scsi_get_temperature` returns, whatever the kernel answers, and keeps what it must of the disk.
use hddtemp.Prelude.{
  ℕ, ◌+◌, not, Option, some, ◌==◌, ltb, refl, Bytes, length, get_or, set, bit_and,
}
use hddtemp.Device.{Disk, GetTemp, SgSupport, untried, unsupported, supported, Kernel}
use hddtemp.Device.Ensures.{Ensures-bind, Ensures-if, Ensures-weaken}
use hddtemp.Device.Kept.{
  IsSome, Runs, Keeps, Runs-pure, Keeps-pure, Runs-get_errno, Runs-ioctl, Keeps-close_disk,
}
use hddtemp.ScsiCmds.{
  Direction, dxfer_to_dev, dxfer_from_dev, get_sg_support, set_sg_support, scsi_sg_io,
  scsi_send_command, scsi_command, with_support, scsi_modesense, scsi_modeselect, scsi_logsense,
  scsi_smartsupport, scsi_smart_dexcpt_disable, exceptions_control_page, dexcpt, support_log_pages,
  temperature_page,
}
use hddtemp.Scsi.{
  scsi_entry, give_up, scsi_read_page, scsi_read_value, scsi_with_entry, scsi_get_temperature,
  lists_page,
}
use hddtemp.Ata.Kept.{Kept-same, Kept-text}

module _ {W : Type 0} (k : Kernel W) where
  pub get_sg_support-Runs : Runs {W = W} get_sg_support
  unfolding get_sg_support
  get_sg_support-Runs = record { at = λ s q. tt }

  pub set_sg_support-Runs : (v : SgSupport) → Runs {W = W} (set_sg_support v)
  unfolding set_sg_support
  set_sg_support-Runs v = record { at = λ s q. tt }

  pub scsi_sg_io-Runs :
      (device : Option ℕ) (cdb : Bytes) (n m : ℕ) (dir : Direction)
      → Runs (scsi_sg_io k device cdb n m dir)
  unfolding scsi_sg_io
  scsi_sg_io-Runs device cdb n m dir = Runs-ioctl k _

  scsi_send_command-Runs :
      (device : Option ℕ) (cdb buffer : Bytes) (dir : Direction)
      → Runs (scsi_send_command k device cdb buffer dir)
  unfolding scsi_send_command
  scsi_send_command-Runs device cdb buffer dir = Ensures-bind (Runs-ioctl k _) λ r. Runs-pure _

  with_support-Runs :
      (device : Option ℕ) (cdb buffer : Bytes) (dir : Direction) (support : SgSupport)
      → Runs (with_support k device cdb buffer dir support)
  unfolding with_support
  with_support-Runs device cdb buffer dir supported =
      Ensures-bind (scsi_sg_io-Runs device cdb (length buffer) 0 dir) λ r. Runs-pure _
  with_support-Runs device cdb buffer dir unsupported = scsi_send_command-Runs device cdb buffer dir
  with_support-Runs device cdb buffer dir untried =
      Ensures-bind (scsi_sg_io-Runs device cdb (length buffer) 0 dir) λ r.
        Ensures-if (r.ret == 0) (λ _. Ensures-bind (set_sg_support-Runs supported) λ _. Runs-pure _)
          (λ _.
            Ensures-bind (set_sg_support-Runs unsupported)
              λ _. scsi_send_command-Runs device cdb r.content dir)

  pub scsi_command-Runs :
      (device : Option ℕ) (cdb buffer : Bytes) (dir : Direction)
      → Runs (scsi_command k device cdb buffer dir)
  unfolding scsi_command
  scsi_command-Runs device cdb buffer dir =
      Ensures-bind get_sg_support-Runs λ support. with_support-Runs device cdb buffer dir support

  pub scsi_logsense-Runs :
      (device : Option ℕ) (pagenum n : ℕ) → Runs (scsi_logsense k device pagenum n)
  unfolding scsi_logsense
  scsi_logsense-Runs device pagenum n = scsi_command-Runs device _ _ dxfer_from_dev

  scsi_modesense-Runs :
      (device : Option ℕ) (pagenum n : ℕ) → Runs (scsi_modesense k device pagenum n)
  unfolding scsi_modesense
  scsi_modesense-Runs device pagenum n =
      Ensures-bind (scsi_command-Runs device _ _ dxfer_from_dev) λ r.
        Ensures-if (r.0 == 0)
          (λ _.
            Ensures-if (ltb (get_or r.1 0 0) (get_or r.1 3 0 + 5)) (λ _. Runs-pure _)
              (λ _. Runs-pure _))
          (λ _. Runs-pure _)

  scsi_modeselect-Runs :
      (device : Option ℕ) (buffer : Bytes) → Runs (scsi_modeselect k device buffer)
  unfolding scsi_modeselect
  scsi_modeselect-Runs device buffer =
      Ensures-bind (scsi_command-Runs device _ _ dxfer_to_dev) λ r. Runs-pure _

  pub scsi_smartsupport-Runs : (device : Option ℕ) → Runs (scsi_smartsupport k device)
  unfolding scsi_smartsupport
  scsi_smartsupport-Runs device =
      Ensures-bind (scsi_modesense-Runs device exceptions_control_page 255) λ r. Runs-pure _

  pub scsi_smart_dexcpt_disable-Runs :
      (device : Option ℕ) → Runs (scsi_smart_dexcpt_disable k device)
  unfolding scsi_smart_dexcpt_disable
  scsi_smart_dexcpt_disable-Runs device =
      Ensures-bind (scsi_modesense-Runs device exceptions_control_page 255) λ r.
        Ensures-if (not (r.0 == 0)) (λ _. Runs-pure _)
          (λ _.
            Ensures-if (dexcpt k r.1)
              (λ _.
                scsi_modeselect-Runs device
                  (set (set r.1 14 (bit_and (get_or r.1 14 0) 0xf7)) 15 0x04))
              (λ _. Runs-pure _))

  give_up-Kept :
      (dsk : Disk) (text : Bytes) (ret : GetTemp)
      → IsSome dsk.db_entry
      → Keeps dsk (give_up k dsk text ret)
  unfolding give_up
  give_up-Kept dsk text ret h = Keeps-close_disk k dsk _ ret (Kept-text dsk text h)

  scsi_read_page-Kept : (dsk : Disk) → IsSome dsk.db_entry → Keeps dsk (scsi_read_page k dsk)
  unfolding scsi_read_page
  scsi_read_page-Kept dsk h = Ensures-bind (scsi_logsense-Runs dsk.fd temperature_page 1024) λ page.
      Ensures-if (not (page.0 == 0))
        (λ _. Ensures-bind Runs-get_errno λ errno. give_up-Kept dsk _ _ h)
        (λ _. Keeps-pure dsk _ _ (record { drive = refl; model = refl; bus = refl; has_entry = h }))

  scsi_read_value-Kept : (dsk : Disk) → IsSome dsk.db_entry → Keeps dsk (scsi_read_value k dsk)
  unfolding scsi_read_value
  scsi_read_value-Kept dsk h =
      Ensures-bind (scsi_logsense-Runs dsk.fd support_log_pages 1024) λ pages.
        Ensures-if (not (pages.0 == 0))
          (λ _. Ensures-bind Runs-get_errno λ errno. give_up-Kept dsk _ _ h)
          (λ _.
            Ensures-if (lists_page (get_or pages.1 3 0) pages.1 4) (λ _. scsi_read_page-Kept dsk h)
              (λ _. Keeps-pure dsk _ _ (Kept-same dsk h)))

  scsi_with_entry-Kept : (dsk : Disk) → IsSome dsk.db_entry → Keeps dsk (scsi_with_entry k dsk)
  unfolding scsi_with_entry
  scsi_with_entry-Kept dsk h = Ensures-bind (scsi_smartsupport-Runs dsk.fd) λ smart.
      Ensures-if (not smart) (λ _. give_up-Kept dsk _ _ h)
        (λ _. Ensures-bind (scsi_smart_dexcpt_disable-Runs dsk.fd) λ ret.
          Ensures-if (not (ret == 0))
            (λ _. Ensures-bind Runs-get_errno λ errno. give_up-Kept dsk _ _ h)
            (λ _. scsi_read_value-Kept dsk h))

  pub scsi_get_temperature-Kept : (dsk : Disk) → Keeps dsk (scsi_get_temperature k dsk)
  unfolding scsi_get_temperature
  scsi_get_temperature-Kept dsk =
      Ensures-weaken (scsi_with_entry-Kept (record dsk { db_entry = some scsi_entry }) tt)
        (λ r s h. record { drive = h.drive; model = h.model; bus = h.bus; has_entry = h.has_entry })
