-- ===== src/Hddtemp/Models/Identify.antt =====
-- src/ata.c and src/sata.c: the model that the identity of a drive gives.
use hddtemp.Prelude.{
  ℕ, true, not, some, ◌==◌, ◌≡◌, ◌≢◌, refl, ◌⊎◌, inl, inr, Bytes, drop, get_or, length-drop, arith,
  Bool-cases,
}
use hddtemp.Device.{bus_sata, bus_ata, Request, hdio_get_identity, Reply, Kernel, Sys}
use hddtemp.Device.Ensures.{Ensures, Ensures-bind, Ensures-if, Ensures-pure}
use hddtemp.Device.Kept.{Any}
use hddtemp.Device.Heard.{HasSizes}
use hddtemp.Hddtemp.Names.{identify_name, pass_identify, string_at-ends, string_at-sata}
use hddtemp.Ata.{ata_model}
use hddtemp.Sata.{sata_model, identify_cmd}
use hddtemp.ScsiCmds.{scsi_sg_io}
use hddtemp.SataCmds.{sata_pass_thru, pass_thru_cdb}
use hddtemp.Sata.Heard.{passed, passed-zero}
use hddtemp.FixString.{sata_fixstring}
use hddtemp.Hddtemp.Models.Rules.{
  is_zero, not_zero, strdup-gives, HasNames, Models, Known, ioctl-Known,
}

passed_not_zero : (sense ret : ℕ) → not (passed sense ret == 0) ≡ true → (ret ≢ 0) ⊎ (sense ≢ 0x72)
passed_not_zero sense ret z = elim (Bool-cases (sense == 0x72)) [
  | inl e ↦ inl (λ q. ground arith)
  | inr e ↦ inr (λ q. ground arith)
]

module _ {W : Type 0} (k : Kernel W) (sizes : HasSizes k) (named : HasNames k)
    (Said : Request → Reply → W → Type 0)
    (said : (req : Request) (w : W) → Said req (k.ioctl req w).0 (k.ioctl req w).1) where
  pub ata_model-Models :
      (fd : ℕ) → Ensures Any (ata_model k (some fd)) (Models Said bus_ata (some fd))
  unfolding ata_model
  ata_model-Models fd =
      let req : Request = hdio_get_identity (some fd) in
      Ensures-bind (ioctl-Known k sizes named Said said req) λ r.
        Ensures-if (not (r.ret == 0))
          (λ z.
            Ensures-pure _
              (λ s h. (omega arith, req, r, (h.is_said, (refl, inr (not_zero r.ret z, refl))))))
          (λ z. record {
            at = λ s h.
                let zero = is_zero r.ret z in
                let (i, le, nul) = h.is_named zero in
                let (text, e, short) = string_at-ends (drop 54 r.content) i nul in
                strdup-gives (Models Said bus_ata (some fd)) (drop 54 r.content) text s e
                  (omega (arith, le, short), req, r, (h.is_said, (refl, inl (zero, e))));
          })

  -- What `sata_pass_thru` gives of a reply.
  abbrev Passed : ℕ → ℕ × Bytes → Sys W → Type 0
  Passed fd p s =
      (r : Reply) × Known Said (pass_identify (some fd)) r s
      × (p.0 ≡ passed (get_or r.sense 0 0) r.ret)
      × (p.1 ≡ r.content)

  sata_pass_thru-Passed :
      (fd : ℕ) → Ensures Any (sata_pass_thru k (some fd) identify_cmd) (Passed fd)
  unfolding sata_pass_thru scsi_sg_io pass_thru_cdb
  sata_pass_thru-Passed fd =
      Ensures-bind (ioctl-Known k sizes named Said said (pass_identify (some fd)))
        λ r. Ensures-pure _ (λ s h. (r, h, refl, refl))

  pub sata_model-Models :
      (fd : ℕ) → Ensures Any (sata_model k (some fd)) (Models Said bus_sata (some fd))
  unfolding sata_model
  sata_model-Models fd = Ensures-bind (sata_pass_thru-Passed fd) λ p.
      Ensures-if (not (p.0 == 0))
        (λ z. Ensures-pure _ (λ s (r, h, e, c). (
          omega arith,
          pass_identify (some fd),
          r,
          (h.is_said, (refl, inr (passed_not_zero (get_or r.sense 0 0) r.ret (rw e at z), refl))),
        )))
        (λ z. record {
          at = λ s (r, h, e, c).
              let (zero, sense) = passed-zero (get_or r.sense 0 0) r.ret p.0 e z in
              let short = (h.is_named zero).1 refl in
              let name = identify_name r.content in
              strdup-gives (Models Said bus_sata (some fd)) (sata_fixstring (drop 54 p.1) 24) name s
                (rw c (
                  string_at-sata (drop 54 r.content)
                    (omega (arith, length-drop 54 r.content, h.size)) short))
                (
                  omega (arith, short),
                  pass_identify (some fd),
                  r,
                  (h.is_said, (refl, inl (zero, sense, refl))),
                );
        })
