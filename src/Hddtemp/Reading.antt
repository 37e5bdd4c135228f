-- ===== src/Hddtemp/Reading.antt =====
-- src/hddtemp.c: probing a drive only reads.
use hddtemp.Prelude.{
  ℕ, not, Option, none, some, List, [], ◌∷◌, ◌≡◌, refl, ◌==◌, ◌⊎◌, inl, inr, Bytes, drop, get_or,
}
use hddtemp.Device.{
  Request, hdio_get_identity, hdio_drive_cmd, scsi_get_bus_number, sg_io,
  scsi_send_command as send_request, SgSupport, untried, supported, unsupported, Kernel, Sys, Dev,
  pure, ioctl,
}
use hddtemp.Device.Ensures.{Post, Ensures, Ensures-bind, Ensures-if, Ensures-pure}
use hddtemp.Device.Log.{logged}
use hddtemp.Scsi.Support.{All, All-append}
use hddtemp.ScsiCmds.{
  inquiry, Direction, dxfer_from_dev, get_sg_support, set_sg_support, scsi_sg_io, scsi_send_command,
  with_support, scsi_command, scsi_inquiry,
}
use hddtemp.SataCmds.{sata_pass_thru, pass_thru_cdb}
use hddtemp.Scsi.{scsi_probe}
use hddtemp.Sata.{sata_probe, is_ata, identify_cmd}
use hddtemp.Ata.{ata_probe}
use hddtemp.Hddtemp.{probe_bus_type}

-- INQUIRY, or the ATA command IDENTIFY DEVICE passed through.
abbrev pub IsReadingCdb : Bytes → Type 0
IsReadingCdb [] = ⊥
IsReadingCdb (c ∷ cdb) = (c ≡ 0x12) ⊎ ((c ≡ 0x85) × (get_or (c ∷ cdb) 14 0 ≡ 0xec))

-- A request that asks the drive who it is.
abbrev pub IsReading : Request → Type 0
IsReading (hdio_get_identity fd) = Unit {0}
IsReading (hdio_drive_cmd fd args) = ⊥
IsReading (scsi_get_bus_number fd) = Unit {0}
IsReading (sg_io fd hdr) = IsReadingCdb hdr.cmdp
IsReading (send_request fd block) = IsReadingCdb (drop 8 block)

module _ {W : Type 0} (k : Kernel W) where
  abbrev pub OnlyReads : Sys (W × List Request) → Type 0
  OnlyReads s = All IsReading s.world.1

  abbrev Reads : {A : Type 0} → Dev (W × List Request) A → Type 0
  Reads m = Ensures OnlyReads m (λ a s. OnlyReads s)

  pure-Reads : {A : Type 0} (a : A) → Reads (pure a)
  pure-Reads a = Ensures-pure a (λ s q. q)

  ioctl-Reads : (req : Request) → IsReading req → Reads (ioctl (logged k) req)
  unfolding ioctl
  ioctl-Reads req i = record { at = λ s q. All-append IsReading s.world.1 req q i }

  set_sg_support-Reads : (v : SgSupport) → Reads (set_sg_support v)
  unfolding set_sg_support
  set_sg_support-Reads v = record { at = λ s q. q }

  send-Reads :
      (fd : Option ℕ) (cdb buffer : Bytes) (dir : Direction)
      → Reads (scsi_send_command (logged k) fd (inquiry ∷ cdb) buffer dir)
  unfolding scsi_send_command
  send-Reads fd cdb buffer dir = Ensures-bind (ioctl-Reads _ (inl refl)) λ r. pure-Reads _

  with_support-Reads :
      (fd : Option ℕ) (cdb buffer : Bytes) (dir : Direction) (v : SgSupport)
      → Reads (with_support (logged k) fd (inquiry ∷ cdb) buffer dir v)
  unfolding with_support scsi_sg_io
  with_support-Reads fd cdb buffer dir supported =
      Ensures-bind (ioctl-Reads _ (inl refl)) λ r. pure-Reads _
  with_support-Reads fd cdb buffer dir unsupported = send-Reads fd cdb buffer dir
  with_support-Reads fd cdb buffer dir untried = Ensures-bind (ioctl-Reads _ (inl refl)) λ r.
      Ensures-if (r.ret == 0) (λ _. Ensures-bind (set_sg_support-Reads supported) λ _. pure-Reads _)
        (λ _. Ensures-bind (set_sg_support-Reads unsupported) λ _. send-Reads fd cdb r.content dir)

  scsi_inquiry-Reads : (fd : Option ℕ) → Reads (scsi_inquiry (logged k) fd)
  unfolding scsi_inquiry scsi_command get_sg_support
  scsi_inquiry-Reads fd =
      Ensures-bind
        (Ensures-bind {M = λ v s. OnlyReads s} (record { at = λ s q. q })
          λ v. with_support-Reads fd _ _ dxfer_from_dev v)
        λ r. Ensures-if (not (r.0 == 0)) (λ _. pure-Reads _) (λ _. pure-Reads _)

  identify-Reads : (fd : Option ℕ) → Reads (sata_pass_thru (logged k) fd identify_cmd)
  unfolding sata_pass_thru scsi_sg_io pass_thru_cdb
  identify-Reads fd = Ensures-bind (ioctl-Reads _ (inr (refl, refl))) λ r. pure-Reads _

  sata_probe-Reads : (fd : Option ℕ) → Reads (sata_probe (logged k) fd)
  unfolding sata_probe
  sata_probe-Reads fd = Ensures-bind (ioctl-Reads _ tt) λ bus.
      Ensures-if (not (bus.ret == 0)) (λ _. pure-Reads _)
        (λ _. Ensures-bind (scsi_inquiry-Reads fd) λ r.
          Ensures-if (not (r.0 == 0)) (λ _. pure-Reads _)
            (λ _.
              Ensures-if (not (is_ata (drop 8 r.1))) (λ _. pure-Reads _)
                (λ _. Ensures-bind (identify-Reads fd) λ p. pure-Reads _)))

  ata_probe-Reads : (fd : Option ℕ) → Reads (ata_probe (logged k) fd)
  unfolding ata_probe
  ata_probe-Reads none = pure-Reads _
  ata_probe-Reads (some fd) = Ensures-bind (ioctl-Reads _ tt) λ r. pure-Reads _

  scsi_probe-Reads : (fd : Option ℕ) → Reads (scsi_probe (logged k) fd)
  unfolding scsi_probe
  scsi_probe-Reads fd = Ensures-bind (ioctl-Reads _ tt) λ r. pure-Reads _

  probe-Reads : (fd : Option ℕ) → Reads (probe_bus_type (logged k) fd)
  unfolding probe_bus_type
  probe-Reads fd = Ensures-bind (sata_probe-Reads fd) λ sata.
      Ensures-if sata (λ _. pure-Reads _)
        (λ _. Ensures-bind (ata_probe-Reads fd) λ ata.
          Ensures-if ata (λ _. pure-Reads _)
            (λ _. Ensures-bind (scsi_probe-Reads fd) λ scsi. pure-Reads _))

  -- Probing returns and sends a drive only requests that ask who it is, whatever the kernel answers: its identity, the
  -- number of its bus, the SCSI command INQUIRY, by either call, and the ATA command IDENTIFY DEVICE.
  pub probe_bus_type-OnlyReads :
      (fd : Option ℕ) (s : Sys (W × List Request))
      → OnlyReads s
      → Post (λ bus s'. OnlyReads s') (probe_bus_type (logged k) fd s)
  probe_bus_type-OnlyReads fd s h = (probe-Reads fd).at s h
