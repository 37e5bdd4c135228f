-- ===== src/Hddtemp/Models/Inquiry.antt =====
-- src/scsi.c: the model that INQUIRY gives.
use mathlib.Core.Path.{subst}
use hddtemp.Prelude.{
  ℕ, ◌<◌, ◌≤◌, false, not, Option, some, ◌++◌, ◌==◌, ◌≡◌, ◌≢◌, refl, sym, ap, ◌∙◌, ◌⊎◌, inl, inr,
  Bytes, codes, take, drop, get_or, length, length-take, length-drop, length-append, drop-append,
  arith,
}
use hddtemp.Device.{
  bus_scsi, Request, scsi_send_command as send_request, Reply, Kernel, Sys, string_at, strdup,
}
use hddtemp.Device.Ensures.{Post, Ensures, Ensures-bind, Ensures-if, Ensures-pure, Ensures-weaken}
use hddtemp.Device.Kept.{Any}
use hddtemp.Device.Heard.{HasSizes}
use hddtemp.Hddtemp.Names.{inquiry_name, IsInquiry, inquire, inquired, string_at-scsi}
use hddtemp.Scsi.{scsi_model}
use hddtemp.ScsiCmds.{int_bytes, scsi_sg_io, scsi_send_command, scsi_inquiry, dxfer_from_dev}
use hddtemp.Scsi.Command.{scsi_command-Ensures}
use hddtemp.FixString.{scsi_fixstring}
use hddtemp.Hddtemp.Models.Rules.{
  is_zero, not_zero, strdup-gives, HasNames, Models, Known, ioctl-Known,
}

-- What was put in the place of the bytes behind the first `n`.
drop_behind : (n : ℕ) (m rest : Bytes) → n ≤ length m → drop n (take n m ++ rest) ≡ rest
drop_behind n m rest le =
    let e : length (take n m) ≡ n = omega (arith, length-take n m) in
    rw e at (drop-append (take n m) rest)

module _ {W : Type 0} (k : Kernel W) (sizes : HasSizes k) (named : HasNames k)
    (Said : Request → Reply → W → Type 0)
    (said : (req : Request) (w : W) → Said req (k.ioctl req w).0 (k.ioctl req w).1) where
  -- What `scsi_command` gives of the reply to INQUIRY.
  abbrev Inquired : Option ℕ → ℕ × Bytes → W → Type 0
  Inquired fd p w =
      (q : Request) × (r : Reply) × Said q r w
      × IsInquiry fd q
      × (r.ret ≡ p.0)
      × (inquired q r ≡ p.1)
      × (length p.1 ≡ 36)
      × (r.ret ≡ 0 → length (inquiry_name p.1) < 24)

  sent-Inquired :
      (fd : Option ℕ) (block : Bytes) (n : ℕ) (r : Reply) (s : Sys W)
      → take 6 (drop 8 block) ≡ inquire
      → get_or block 8 0 ≡ 0x12
      → 44 ≤ length block
      → n ≡ 36
      → Known Said (send_request fd block) r s
      → Inquired fd (r.ret, take n (drop 8 r.content)) s.world
  sent-Inquired fd block n r s c first le e h =
      subst (λ n. Inquired fd (r.ret, take n (drop 8 r.content)) s.world) (sym e)
        (
          send_request fd block,
          r,
          h.is_said,
          (refl, c),
          refl,
          refl,
          omega (arith, length-take 36 (drop 8 r.content), length-drop 8 r.content, h.size, le),
          λ zero. h.is_named zero first,
        )

  send-Inquired :
      (fd : Option ℕ) (buffer : Bytes)
      → length buffer ≡ 36
      → Ensures Any
          (scsi_send_command k fd inquire buffer dxfer_from_dev)
          (λ p s. Inquired fd p s.world)
  unfolding scsi_send_command
  send-Inquired fd buffer e = Ensures-bind (ioctl-Known k sizes named Said said _) λ r.
      Ensures-pure _ (λ s h.
        sent-Inquired fd _ (length buffer) r s refl refl
          (omega (
            arith,
            e,
            length-append buffer (
                drop (length (int_bytes 0 ++ (int_bytes (length buffer) ++ (inquire ++ buffer))))
                  (k.stack 2048)),
          ))
          e h)

  sg_io-Inquired :
      (fd : Option ℕ) (buffer : Bytes)
      → length buffer ≡ 36
      → Ensures Any
          (scsi_sg_io k fd inquire (length buffer) 0 dxfer_from_dev)
          (λ r s. (length r.content ≡ 36) × Inquired fd (r.ret, r.content) s.world)
  unfolding scsi_sg_io
  sg_io-Inquired fd buffer e = Ensures-weaken (ioctl-Known k sizes named Said said _) λ r s h.
      let size : length r.content ≡ 36 = h.size ∙ e in
      (size, (_, r, h.is_said, (refl, refl), refl, refl, size, λ zero. (h.is_named zero).0 refl))

  -- `scsi_inquiry` cleans up the name where it stands.
  abbrev Cleaned : Option ℕ → ℕ × Bytes → Sys W → Type 0
  Cleaned fd p s =
      (q : Request) × (r : Reply) × Said q r s.world
      × IsInquiry fd q
      × (((p.0 ≢ 0) × (r.ret ≢ 0))
          ⊎ ((p.0 ≡ 0)
              × (r.ret ≡ 0)
              × (string_at (drop 8 p.1) ≡ some (inquiry_name (inquired q r)))
              × (length (inquiry_name (inquired q r)) < 24)))

  Inquired-Cleaned :
      (fd : Option ℕ) (p : ℕ × Bytes) (s : Sys W)
      → not (p.0 == 0) ≡ false
      → Inquired fd p s.world
      → Cleaned fd (0, take 8 p.1 ++ scsi_fixstring (drop 8 p.1) 24) s
  Inquired-Cleaned fd p s z (q, r, said', i, e, c, size, short) =
      let ret : r.ret ≡ 0 = e ∙ is_zero p.0 z in
      let name = string_at-scsi (drop 8 p.1) (omega (arith, length-drop 8 p.1, size)) (short ret) in
      let behind = drop_behind 8 p.1 (scsi_fixstring (drop 8 p.1) 24) (omega (arith, size)) in
      (
        q,
        r,
        said',
        i,
        inr (
          refl,
          ret,
          ap string_at behind ∙ name ∙ ap (λ m. some (inquiry_name m)) (sym c),
          subst (λ m. length (inquiry_name m) < 24) (sym c) (short ret),
        ),
      )

  scsi_inquiry-Cleaned : (fd : Option ℕ) → Ensures Any (scsi_inquiry k fd) (Cleaned fd)
  unfolding scsi_inquiry
  scsi_inquiry-Cleaned fd =
      Ensures-bind
        (scsi_command-Ensures k fd inquire dxfer_from_dev 36 (Inquired fd) (sg_io-Inquired fd)
          (send-Inquired fd) (k.stack 36) (sizes.stack 36))
        λ p.
          Ensures-if (not (p.0 == 0))
            (λ z. Ensures-pure _ (λ s (q, r, said', i, e, c, size, short).
              (q, r, said', i, inl (λ n. ground arith, λ n. not_zero p.0 z (sym e ∙ n)))))
            (λ z. Ensures-pure _ (λ s h. Inquired-Cleaned fd p s z h))

  failed-Models :
      (fd : Option ℕ) (p : ℕ × Bytes) (s : Sys W)
      → p.0 ≢ 0
      → Cleaned fd p s
      → Models Said bus_scsi fd (codes "unknown") s
  failed-Models fd p s n (q, r, said', i, inl (m, f)) =
      (omega arith, q, r, (said', (i, inr (f, refl))))
  failed-Models fd p s n (q, r, said', i, inr (m, zero, name, short)) = absurd (n m)

  Cleaned-Models :
      (fd : Option ℕ) (p : ℕ × Bytes) (s : Sys W)
      → p.0 ≡ 0
      → Cleaned fd p s
      → Post (Models Said bus_scsi fd) (strdup (drop 8 p.1) s)
  Cleaned-Models fd p s e (q, r, said', i, inl (m, f)) = absurd (m e)
  Cleaned-Models fd p s e (q, r, said', i, inr (m, zero, name, short)) =
      strdup-gives (Models Said bus_scsi fd) (drop 8 p.1) (inquiry_name (inquired q r)) s name
        (omega (arith, short), q, r, (said', (i, inl (zero, refl))))

  pub scsi_model-Models :
      (fd : ℕ) → Ensures Any (scsi_model k (some fd)) (Models Said bus_scsi (some fd))
  unfolding scsi_model
  scsi_model-Models fd = Ensures-bind (scsi_inquiry-Cleaned (some fd)) λ p.
      Ensures-if (not (p.0 == 0))
        (λ z. Ensures-pure _ (λ s h. failed-Models (some fd) p s (not_zero p.0 z) h))
        (λ z. record { at = λ s h. Cleaned-Models (some fd) p s (is_zero p.0 z) h })
