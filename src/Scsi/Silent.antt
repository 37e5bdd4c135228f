-- ===== src/Scsi/Silent.antt =====
-- src/scsi.c and src/scsicmds.c: the driver prints nothing.
use hddtemp.Prelude.{ℕ, not, ◌+◌, ◌==◌, ltb, Option, some, Bytes, get_or, set, bit_and}
use hddtemp.Device.{
  Disk, GetTemp, Kernel, SgSupport, untried, supported, unsupported, ◌>>=◌, get_errno,
}
use hddtemp.Device.Ensures.{Ensures, Ensures-bind, Ensures-if}
use hddtemp.Device.Silent.{
  Says, Silent, Silent-pure, Silent-get_errno, Silent-ioctl, Silent-close_disk,
}
use hddtemp.ScsiCmds.{
  Direction, get_sg_support, set_sg_support, scsi_sg_io, scsi_send_command, with_support,
  scsi_command, scsi_inquiry, scsi_modesense, scsi_modeselect, scsi_logsense, dexcpt,
  scsi_smartsupport, scsi_smart_dexcpt_disable, exceptions_control_page, support_log_pages,
  temperature_page,
}
use hddtemp.Scsi.{
  scsi_entry, give_up, lists_page, scsi_read_page, scsi_read_value, scsi_with_entry,
  scsi_get_temperature,
}

module _ {W : Type 0} (out : Bytes) (k : Kernel W) where
  scsi_sg_io-Silent :
      (device : Option ℕ) (cdb : Bytes) (n m : ℕ) (dir : Direction)
      → Silent out (scsi_sg_io k device cdb n m dir)
  unfolding scsi_sg_io
  scsi_sg_io-Silent device cdb n m dir = Silent-ioctl out k _

  scsi_send_command-Silent :
      (device : Option ℕ) (cdb buffer : Bytes) (dir : Direction)
      → Silent out (scsi_send_command k device cdb buffer dir)
  unfolding scsi_send_command
  scsi_send_command-Silent device cdb buffer dir =
      Ensures-bind (Silent-ioctl out k _) λ r. Silent-pure out _

  set_sg_support-Silent :
      (v : SgSupport) → Ensures {W = W} (Says out) (set_sg_support v) (λ a s. Says out s)
  unfolding set_sg_support
  set_sg_support-Silent v = record { at = λ s q. q }

  with_support-Silent :
      (device : Option ℕ) (cdb buffer : Bytes) (dir : Direction) (v : SgSupport)
      → Silent out (with_support k device cdb buffer dir v)
  unfolding with_support
  with_support-Silent device cdb buffer dir supported =
      Ensures-bind (scsi_sg_io-Silent device cdb _ 0 dir) λ r. Silent-pure out _
  with_support-Silent device cdb buffer dir unsupported =
      scsi_send_command-Silent device cdb buffer dir
  with_support-Silent device cdb buffer dir untried =
      Ensures-bind (scsi_sg_io-Silent device cdb _ 0 dir) λ r.
        Ensures-if (r.ret == 0)
          (λ _. Ensures-bind (set_sg_support-Silent supported) λ _. Silent-pure out _)
          (λ _.
            Ensures-bind (set_sg_support-Silent unsupported)
              λ _. scsi_send_command-Silent device cdb r.content dir)

  scsi_command-Silent :
      (device : Option ℕ) (cdb buffer : Bytes) (dir : Direction)
      → Silent out (scsi_command k device cdb buffer dir)
  unfolding scsi_command get_sg_support
  scsi_command-Silent device cdb buffer dir =
      Ensures-bind {M = λ v s. Says out s} (record { at = λ s q. q })
        λ v. with_support-Silent device cdb buffer dir v

  pub scsi_inquiry-Silent : (device : Option ℕ) → Silent out (scsi_inquiry k device)
  unfolding scsi_inquiry
  scsi_inquiry-Silent device =
      Ensures-bind (scsi_command-Silent device _ _ Direction.dxfer_from_dev)
        λ r. Ensures-if (not (r.0 == 0)) (λ _. Silent-pure out _) (λ _. Silent-pure out _)

  scsi_logsense-Silent :
      (device : Option ℕ) (pagenum n : ℕ) → Silent out (scsi_logsense k device pagenum n)
  unfolding scsi_logsense
  scsi_logsense-Silent device pagenum n = scsi_command-Silent device _ _ Direction.dxfer_from_dev

  scsi_modesense-Silent :
      (device : Option ℕ) (pagenum n : ℕ) → Silent out (scsi_modesense k device pagenum n)
  unfolding scsi_modesense
  scsi_modesense-Silent device pagenum n =
      Ensures-bind (scsi_command-Silent device _ _ Direction.dxfer_from_dev) λ r.
        Ensures-if (r.0 == 0)
          (λ _.
            Ensures-if (ltb (get_or r.1 0 0) (get_or r.1 3 0 + 5)) (λ _. Silent-pure out _)
              (λ _. Silent-pure out _))
          (λ _. Silent-pure out _)

  scsi_modeselect-Silent :
      (device : Option ℕ) (buffer : Bytes) → Silent out (scsi_modeselect k device buffer)
  unfolding scsi_modeselect
  scsi_modeselect-Silent device buffer =
      Ensures-bind (scsi_command-Silent device _ _ Direction.dxfer_to_dev) λ r. Silent-pure out _

  scsi_smartsupport-Silent : (device : Option ℕ) → Silent out (scsi_smartsupport k device)
  unfolding scsi_smartsupport
  scsi_smartsupport-Silent device =
      Ensures-bind (scsi_modesense-Silent device exceptions_control_page 255) λ r. Silent-pure out _

  scsi_smart_dexcpt_disable-Silent :
      (device : Option ℕ) → Silent out (scsi_smart_dexcpt_disable k device)
  unfolding scsi_smart_dexcpt_disable
  scsi_smart_dexcpt_disable-Silent device =
      Ensures-bind (scsi_modesense-Silent device exceptions_control_page 255) λ r.
        Ensures-if (not (r.0 == 0)) (λ _. Silent-pure out _)
          (λ _.
            Ensures-if (dexcpt k r.1)
              (λ _.
                scsi_modeselect-Silent device
                  (set (set r.1 14 (bit_and (get_or r.1 14 0) 0xf7)) 15 0x04))
              (λ _. Silent-pure out _))

  give_up-Silent : (dsk : Disk) (text : Bytes) (ret : GetTemp) → Silent out (give_up k dsk text ret)
  unfolding give_up
  give_up-Silent dsk text ret = Silent-close_disk out k _ _

  fails-Silent :
      (dsk : Disk) (text : ℕ → Bytes) (ret : GetTemp)
      → Silent out (get_errno >>= λ errno. give_up k dsk (text errno) ret)
  fails-Silent dsk text ret =
      Ensures-bind (Silent-get_errno out) λ errno. give_up-Silent dsk (text errno) ret

  scsi_read_page-Silent : (dsk : Disk) → Silent out (scsi_read_page k dsk)
  unfolding scsi_read_page
  scsi_read_page-Silent dsk =
      Ensures-bind (scsi_logsense-Silent dsk.fd temperature_page 1024)
        λ page. Ensures-if (not (page.0 == 0)) (λ _. fails-Silent dsk _ _) (λ _. Silent-pure out _)

  scsi_read_value-Silent : (dsk : Disk) → Silent out (scsi_read_value k dsk)
  unfolding scsi_read_value
  scsi_read_value-Silent dsk =
      Ensures-bind (scsi_logsense-Silent dsk.fd support_log_pages 1024) λ pages.
        Ensures-if (not (pages.0 == 0)) (λ _. fails-Silent dsk _ _)
          (λ _.
            Ensures-if (lists_page (get_or pages.1 3 0) pages.1 4) (λ _. scsi_read_page-Silent dsk)
              (λ _. Silent-pure out _))

  scsi_with_entry-Silent : (dsk : Disk) → Silent out (scsi_with_entry k dsk)
  unfolding scsi_with_entry
  scsi_with_entry-Silent dsk = Ensures-bind (scsi_smartsupport-Silent dsk.fd) λ smart.
      Ensures-if (not smart) (λ _. give_up-Silent dsk _ _)
        (λ _. Ensures-bind (scsi_smart_dexcpt_disable-Silent dsk.fd) λ ret.
          Ensures-if (not (ret == 0)) (λ _. fails-Silent dsk _ _) (λ _. scsi_read_value-Silent dsk))

  pub scsi_get_temperature-Silent : (dsk : Disk) → Silent out (scsi_get_temperature k dsk)
  unfolding scsi_get_temperature
  scsi_get_temperature-Silent dsk =
      scsi_with_entry-Silent (record dsk { db_entry = some scsi_entry })
