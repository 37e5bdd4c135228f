-- ===== src/Scsi/Small.antt =====
-- The value that `scsi_get_temperature` leaves is -1 or a byte.
use hddtemp.Prelude.{ℕ, not, Option, some, ◌==◌, Bytes, length, get_or}
use hddtemp.Device.{Disk, GetTemp, SgSupport, untried, unsupported, supported, set_errormsg, Kernel}
use hddtemp.Device.Ensures.{Ensures, Ensures-bind, Ensures-if, Ensures-pure}
use hddtemp.Device.Kept.{Any, Runs-get_errno, Ensures-given}
use hddtemp.Smart.Raw.{IsBytes}
use hddtemp.Smart.Small.{
  HasBytes, IsSmall, IsBytes-drop, IsBytes-take, IsBytes-get_or, LeavesSmall, ioctl-IsBytes,
  LeavesSmall-pure, LeavesSmall-close_disk,
}
use hddtemp.ScsiCmds.{
  Direction, dxfer_from_dev, scsi_sg_io, scsi_send_command, with_support, scsi_command,
  scsi_logsense, support_log_pages, temperature_page,
}
use hddtemp.Scsi.{
  scsi_entry, give_up, scsi_read_page, scsi_read_value, scsi_with_entry, scsi_get_temperature,
  lists_page,
}
use hddtemp.Scsi.Kept.{
  get_sg_support-Runs, set_sg_support-Runs, scsi_smartsupport-Runs, scsi_smart_dexcpt_disable-Runs,
}

module _ {W : Type 0} (k : Kernel W) (h : HasBytes k) where
  scsi_sg_io-IsBytes :
      (device : Option ℕ) (cdb : Bytes) (n m : ℕ) (dir : Direction)
      → Ensures Any (scsi_sg_io k device cdb n m dir) (λ r s. IsBytes r.content)
  unfolding scsi_sg_io
  scsi_sg_io-IsBytes device cdb n m dir = ioctl-IsBytes k h _

  scsi_send_command-IsBytes :
      (device : Option ℕ) (cdb buffer : Bytes) (dir : Direction)
      → Ensures Any (scsi_send_command k device cdb buffer dir) (λ r s. IsBytes r.1)
  unfolding scsi_send_command
  scsi_send_command-IsBytes device cdb buffer dir = Ensures-bind (ioctl-IsBytes k h _) λ r.
      Ensures-given
        λ b. Ensures-pure _ (λ s q. IsBytes-take (length buffer) _ (IsBytes-drop 8 r.content b))

  with_support-IsBytes :
      (device : Option ℕ) (cdb buffer : Bytes) (dir : Direction) (support : SgSupport)
      → Ensures Any (with_support k device cdb buffer dir support) (λ r s. IsBytes r.1)
  unfolding with_support
  with_support-IsBytes device cdb buffer dir supported =
      Ensures-bind (scsi_sg_io-IsBytes device cdb (length buffer) 0 dir)
        λ r. Ensures-given λ b. Ensures-pure _ (λ s q. b)
  with_support-IsBytes device cdb buffer dir unsupported =
      scsi_send_command-IsBytes device cdb buffer dir
  with_support-IsBytes device cdb buffer dir untried =
      Ensures-bind (scsi_sg_io-IsBytes device cdb (length buffer) 0 dir) λ r. Ensures-given λ b.
        Ensures-if (r.ret == 0)
          (λ _. Ensures-bind (set_sg_support-Runs k supported) λ _. Ensures-pure _ (λ s q. b))
          (λ _.
            Ensures-bind (set_sg_support-Runs k unsupported)
              λ _. scsi_send_command-IsBytes device cdb r.content dir)

  scsi_logsense-IsBytes :
      (device : Option ℕ) (pagenum n : ℕ)
      → Ensures Any (scsi_logsense k device pagenum n) (λ r s. IsBytes r.1)
  unfolding scsi_logsense scsi_command
  scsi_logsense-IsBytes device pagenum n =
      Ensures-bind (get_sg_support-Runs k)
        λ support. with_support-IsBytes device _ _ dxfer_from_dev support

  give_up-IsSmall :
      (dsk : Disk) (text : Bytes) (ret : GetTemp)
      → IsSmall dsk.value
      → LeavesSmall (give_up k dsk text ret)
  unfolding give_up
  give_up-IsSmall dsk text ret v = LeavesSmall-close_disk k (set_errormsg dsk text) ret v

  module _ (dsk : Disk) (v : IsSmall dsk.value) where
    scsi_read_page-IsSmall : LeavesSmall (scsi_read_page k dsk)
    unfolding scsi_read_page
    scsi_read_page-IsSmall =
        Ensures-bind (scsi_logsense-IsBytes dsk.fd temperature_page 1024) λ page.
          Ensures-given {C = IsBytes page.1} λ b.
            Ensures-if (not (page.0 == 0))
              (λ _. Ensures-bind Runs-get_errno λ errno. give_up-IsSmall dsk _ _ v)
              (λ _. LeavesSmall-pure _ _ (IsBytes-get_or page.1 9 b))

    scsi_read_value-IsSmall : LeavesSmall (scsi_read_value k dsk)
    unfolding scsi_read_value
    scsi_read_value-IsSmall =
        Ensures-bind (scsi_logsense-IsBytes dsk.fd support_log_pages 1024) λ pages.
          Ensures-given {C = IsBytes pages.1} λ b.
            Ensures-if (not (pages.0 == 0))
              (λ _. Ensures-bind Runs-get_errno λ errno. give_up-IsSmall dsk _ _ v)
              (λ _.
                Ensures-if (lists_page (get_or pages.1 3 0) pages.1 4) (λ _. scsi_read_page-IsSmall)
                  (λ _. LeavesSmall-pure _ dsk v))

    scsi_with_entry-IsSmall : LeavesSmall (scsi_with_entry k dsk)
    unfolding scsi_with_entry
    scsi_with_entry-IsSmall = Ensures-bind (scsi_smartsupport-Runs k dsk.fd) λ smart.
        Ensures-if (not smart) (λ _. give_up-IsSmall dsk _ _ v)
          (λ _. Ensures-bind (scsi_smart_dexcpt_disable-Runs k dsk.fd) λ ret.
            Ensures-if (not (ret == 0))
              (λ _. Ensures-bind Runs-get_errno λ errno. give_up-IsSmall dsk _ _ v)
              (λ _. scsi_read_value-IsSmall))

  pub scsi_get_temperature-IsSmall :
      (dsk : Disk) → IsSmall dsk.value → LeavesSmall (scsi_get_temperature k dsk)
  unfolding scsi_get_temperature
  scsi_get_temperature-IsSmall dsk v =
      scsi_with_entry-IsSmall (record dsk { db_entry = some scsi_entry }) v
