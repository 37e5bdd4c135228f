-- ===== src/Hddtemp/Models.antt =====
-- src/hddtemp.c: the model of a drive is the name in the kernel's reply.
pub mod Rules
mod Identify
mod Inquiry
use mathlib.Core.Path.{subst}
use hddtemp.Prelude.{
  ℕ, ◌+◌, ◌<◌, ◌≤◌, true, false, not, Option, none, some, [], ◌∷◌, ◌++◌, ◌==◌, ◌≡◌, ◌≢◌, List, refl,
  sym, ap, ◌∙◌, ◌⊎◌, inl, inr, Bytes, codes, take, drop, get_or, length, length-take, length-drop,
  length-append, drop-append, arith, Bool-cases, if◌then◌else◌,
}
use hddtemp.Prelude.Int.{negsuc}
use hddtemp.Device.{
  BusType, error, bus_unknown, bus_sata, bus_ata, bus_scsi, Request, hdio_get_identity,
  hdio_drive_cmd, scsi_get_bus_number, sg_io, scsi_send_command as send_request, Reply, Kernel, Sys,
  Dev, SgSupport, untried, supported, unsupported, ◌>>=◌, ioctl, string_at, strdup,
}
use hddtemp.Device.Ensures.{Post, Ensures, Ensures-bind, Ensures-if, Ensures-pure, Ensures-weaken}
use hddtemp.Device.Kept.{Any, Ensures-given}
use hddtemp.Device.Heard.{buffer_size, HasSizes}
use hddtemp.Hddtemp.{bus_model}
use hddtemp.Hddtemp.Names.{
  inquiry_name, identify_name, IsNamed, IsModel, IsInquiry, inquire, inquired, pass_identify,
  string_at-ends, string_at-scsi, string_at-sata,
}
use hddtemp.Ata.{ata_model}
use hddtemp.Sata.{sata_model, identify_cmd}
use hddtemp.Scsi.{scsi_model}
use hddtemp.ScsiCmds.{
  int_bytes, scsi_sg_io, scsi_send_command, with_support, scsi_command, scsi_inquiry,
  get_sg_support, set_sg_support, dxfer_from_dev,
}
use hddtemp.Scsi.Kept.{get_sg_support-Runs}
use hddtemp.SataCmds.{sata_pass_thru, pass_thru_cdb}
use hddtemp.Sata.Heard.{passed, passed-zero}
use hddtemp.FixString.{scsi_fixstring, sata_fixstring}
use hddtemp.Hddtemp.Models.Rules.{
  is_zero, not_zero, strdup-gives, HasNames, Models, Known, ioctl-Known,
}
use hddtemp.Hddtemp.Models.Identify.{ata_model-Models, sata_model-Models}
use hddtemp.Hddtemp.Models.Inquiry.{scsi_model-Models}
use hddtemp.Device.Heard.{World, heard, Newest, Newest-map}

module _ {W : Type 0} (k : Kernel W) (sizes : HasSizes k) (named : HasNames k)
    (Said : Request → Reply → W → Type 0)
    (said : (req : Request) (w : W) → Said req (k.ioctl req w).0 (k.ioctl req w).1) where
  pub bus_model-Models :
      (b : BusType) (fd : ℕ)
      → b ≢ error
      → b ≢ bus_unknown
      → Ensures Any (bus_model k b (some fd)) (Models Said b (some fd))
  unfolding bus_model
  bus_model-Models error fd n u = absurd (n refl)
  bus_model-Models bus_unknown fd n u = absurd (u refl)
  bus_model-Models bus_sata fd n u = sata_model-Models k sizes named Said said fd
  bus_model-Models bus_ata fd n u = ata_model-Models k sizes named Said said fd
  bus_model-Models bus_scsi fd n u = scsi_model-Models k sizes named Said said fd

heard-HasSizes : {W : Type 0} (k : Kernel W) → HasSizes k → HasSizes (heard k)
heard-HasSizes k h = record { content = λ req w. h.content req w.0; stack = h.stack }

-- On a kernel whose replies are as long as the buffers of the requests, and where the name in a reply that
-- succeeds leaves room for a NUL, reading the model of a drive of a known type returns one of at most 40 bytes.
-- The newest request is the one command that asks the drive who it is, sent to the descriptor: the
-- identity on ATA, IDENTIFY DEVICE behind ATA PASS-THROUGH (16) on SATA, INQUIRY by either call on SCSI.
-- If its reply failed, or on SATA lacks the sense of a SATA drive, the model is "unknown". Otherwise it is on ATA
-- the string at byte 54, on SATA the clean name in the 24 bytes from there with every pair of bytes
-- exchanged, and on SCSI the clean name in the 24 bytes from byte 8 on.
pub bus_model-Named :
    {W : Type 0} (k : Kernel W)
    → HasSizes k
    → HasNames k
    → (b : BusType) (fd : ℕ) (s : Sys (World W)) → b ≢ error
    → b ≢ bus_unknown
    → Post
        (λ m s'. (length m ≤ 40) × Newest (IsModel b (some fd) m) s'.world.1)
        (bus_model (heard k) b (some fd) s)
bus_model-Named {W} k sizes named b fd s n u =
    (Ensures-weaken
        (bus_model-Models (heard k) (heard-HasSizes k sizes) (λ req w. named req w.0) Said
          (λ req w. (refl, refl)) b fd n u)
        (λ m s' h. (h.0, onto m s'.world.1 (h.1, h.2, h.3)))).at
      s tt
  where
    Said : Request → Reply → World W → Type 0
    Said q r w = Newest (λ q' r'. (q' ≡ q) × (r' ≡ r)) w.1

    onto :
        (m : Bytes) (l : List (Request × Reply))
        → ((q : Request) × (r : Reply) × (Newest (λ q' r'. (q' ≡ q) × (r' ≡ r)) l
              × IsModel b (some fd) m q r))
        → Newest (IsModel b (some fd) m) l
    onto m l (q, r, (h, i)) =
        Newest-map l
          (λ q' r' e.
            subst (λ x. IsModel b (some fd) m x r') (sym e.0)
              (subst (λ y. IsModel b (some fd) m q y) (sym e.1) i))
          h
