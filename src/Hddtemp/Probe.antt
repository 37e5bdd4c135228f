-- ===== src/Hddtemp/Probe.antt =====
-- Probing returns, with a type that is a bus or unknown.
use hddtemp.Prelude.{ℕ, Bool, not, Option, none, some, ◌==◌, ◌≢◌, drop, if◌then◌else◌, true, false}
use hddtemp.Device.{error, bus_unknown, bus_scsi, Kernel}
use hddtemp.Device.Ensures.{Ensures, Ensures-bind, Ensures-if, Ensures-pure}
use hddtemp.Device.Kept.{Any, Runs, Runs-pure, Runs-ioctl}
use hddtemp.ScsiCmds.{dxfer_from_dev, scsi_inquiry}
use hddtemp.SataCmds.{sata_pass_thru, Cmd}
use hddtemp.Scsi.Kept.{scsi_command-Runs, scsi_sg_io-Runs}
use hddtemp.Scsi.{scsi_probe}
use hddtemp.Sata.{sata_probe, is_ata}
use hddtemp.Ata.{ata_probe}
use hddtemp.Hddtemp.{probe_bus_type}

module _ {W : Type 0} (k : Kernel W) where
  scsi_inquiry-Runs : (fd : Option ℕ) → Runs (scsi_inquiry k fd)
  unfolding scsi_inquiry
  scsi_inquiry-Runs fd =
      Ensures-bind (scsi_command-Runs k fd _ _ dxfer_from_dev)
        λ r. Ensures-if (not (r.0 == 0)) (λ _. Runs-pure _) (λ _. Runs-pure _)

  sata_pass_thru-Runs : (fd : Option ℕ) (cmd : Cmd) → Runs (sata_pass_thru k fd cmd)
  unfolding sata_pass_thru
  sata_pass_thru-Runs fd cmd = Ensures-bind (scsi_sg_io-Runs k fd _ _ _ _) λ r. Runs-pure _

  sata_probe-Runs : (fd : Option ℕ) → Runs (sata_probe k fd)
  unfolding sata_probe
  sata_probe-Runs fd = Ensures-bind (Runs-ioctl k _) λ bus.
      Ensures-if (not (bus.ret == 0)) (λ _. Runs-pure _)
        (λ _. Ensures-bind (scsi_inquiry-Runs fd) λ r.
          Ensures-if (not (r.0 == 0)) (λ _. Runs-pure _)
            (λ _.
              Ensures-if (not (is_ata (drop 8 r.1))) (λ _. Runs-pure _)
                (λ _. Ensures-bind (sata_pass_thru-Runs fd _) λ p. Runs-pure _)))

  ata_probe-Runs : (fd : Option ℕ) → Runs (ata_probe k fd)
  unfolding ata_probe
  ata_probe-Runs none = Runs-pure _
  ata_probe-Runs (some fd) = Ensures-bind (Runs-ioctl k _) λ r. Runs-pure _

  scsi_probe-Runs : (fd : Option ℕ) → Runs (scsi_probe k fd)
  unfolding scsi_probe
  scsi_probe-Runs fd = Ensures-bind (Runs-ioctl k _) λ r. Runs-pure _

  pub probe_bus_type-known : (fd : Option ℕ) → Ensures Any (probe_bus_type k fd) (λ b s. b ≢ error)
  unfolding probe_bus_type
  probe_bus_type-known fd = Ensures-bind (sata_probe-Runs fd) λ sata.
      Ensures-if sata (λ _. Ensures-pure _ (λ s q e. cc))
        (λ _. Ensures-bind (ata_probe-Runs fd) λ ata.
          Ensures-if ata (λ _. Ensures-pure _ (λ s q e. cc))
            (λ _.
              Ensures-bind (scsi_probe-Runs fd)
                λ scsi. Ensures-pure _ (λ s q. bus_or_unknown scsi)))
    where
      bus_or_unknown : (b : Bool) → (if b then bus_scsi else bus_unknown) ≢ error
      bus_or_unknown true e = cc
      bus_or_unknown false e = cc
