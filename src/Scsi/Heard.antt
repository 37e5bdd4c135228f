-- ===== src/Scsi/Heard.antt =====
-- src/scsi.c: the temperature that `scsi_get_temperature` gives is in the drive's reply.
use mathlib.Core.Path.{subst}
use hddtemp.Prelude.{
  ℕ, false, zero, suc, ◌+◌, ◌<◌, not, Option, some, [], ◌∷◌, ◌==◌, ◌≡◌, refl, sym, ap, ◌∙◌, Bytes,
  take, drop, get_or, length, arith,
}
use hddtemp.Prelude.Int.{pos}
use hddtemp.Device.{
  Disk, GetTemp, gettemp_error, not_applicable, set_errormsg, Request, hdio_get_identity,
  hdio_drive_cmd, scsi_get_bus_number, sg_io, scsi_send_command as send_request, Reply, Kernel,
  ◌>>=◌,
}
use hddtemp.Device.Ensures.{Ensures, Ensures-bind, Ensures-if, Ensures-pure}
use hddtemp.Device.Kept.{Any, Runs-get_errno}
use hddtemp.Device.Silent.{Ensures-from}
use hddtemp.Device.Heard.{
  HasSizes, World, heard, Newest, Newest-map, ioctl-Newest, IfRead, LeavesTold, close-Tells,
}
use hddtemp.ScsiCmds.{
  dxfer_from_dev, scsi_sg_io, scsi_send_command, scsi_logsense, support_log_pages, temperature_page,
}
use hddtemp.Scsi.{
  scsi_entry, give_up, scsi_read_page, scsi_read_value, scsi_with_entry, scsi_get_temperature,
  lists_page,
}
use hddtemp.Scsi.Kept.{scsi_logsense-Runs, scsi_smartsupport-Runs, scsi_smart_dexcpt_disable-Runs}
use hddtemp.Scsi.Command.{scsi_command-Ensures}
use hddtemp.Ata.Heard.{is_zero}

-- LOG SENSE of the current values of the temperature page, with room for 1024 bytes.
abbrev log_temperature : Bytes
log_temperature = 0x4d ∷ 0 ∷ 0x4d ∷ 0 ∷ 0 ∷ 0 ∷ 0 ∷ 4 ∷ 0 ∷ 0 ∷ []

-- The request is that command, by either call, and the reply has this result and this byte of the
-- page; the older call puts the page behind its two sizes.
abbrev IsByte : Option ℕ → ℕ → ℕ → Request → Reply → Type 0
IsByte fd ret byte (sg_io fd' hdr) r =
    (fd' ≡ fd) × (hdr.cmdp ≡ log_temperature) × (r.ret ≡ ret) × (get_or r.content 9 0 ≡ byte)
IsByte fd ret byte (send_request fd' block) r =
    (fd' ≡ fd)
    × (take 10 (drop 8 block) ≡ log_temperature)
    × (r.ret ≡ ret)
    × (get_or r.content 17 0 ≡ byte)
IsByte fd ret byte (hdio_get_identity fd') r = ⊥
IsByte fd ret byte (hdio_drive_cmd fd' args) r = ⊥
IsByte fd ret byte (scsi_get_bus_number fd') r = ⊥

-- The request is LOG SENSE of the temperature page, it succeeded, and the value is the tenth byte of
-- the page.
abbrev pub IsFromScsi : Disk → Disk → Request → Reply → Type 0
IsFromScsi dsk dsk' q p = (byte : ℕ) × IsByte dsk.fd 0 byte q p × (dsk'.value ≡ pos byte)

get_or-take : (n i : ℕ) (m : Bytes) → i < n → get_or (take n m) i 0 ≡ get_or m i 0
get_or-take zero i m lt = absurd (omega arith)
get_or-take (suc n) i [] lt = refl
get_or-take (suc n) zero (c ∷ m) lt = refl
get_or-take (suc n) (suc i) (c ∷ m) lt = get_or-take n i m (omega arith)

get_or-drop : (n i j : ℕ) (m : Bytes) → j ≡ n + i → get_or (drop n m) i 0 ≡ get_or m j 0
get_or-drop zero i j m e = ap (λ n. get_or m n 0) (omega arith)
get_or-drop (suc n) i j [] e = refl
get_or-drop (suc n) i zero (c ∷ m) e = absurd (omega arith)
get_or-drop (suc n) i (suc j) (c ∷ m) e = get_or-drop n i j m (omega arith)

module _ {W : Type 0} (k : Kernel W) (sizes : HasSizes k) (dsk : Disk) where
  abbrev Reads : ℕ × Bytes → World W → Type 0
  Reads page w = Newest (IsByte dsk.fd page.0 (get_or page.1 9 0)) w.1

  sent :
      (n : ℕ) (block : Bytes) (r : Reply) (q : Request) (p : Reply)
      → 9 < n
      → take 10 (drop 8 block) ≡ log_temperature
      → (q ≡ send_request dsk.fd block) × (p ≡ r)
      → IsByte dsk.fd r.ret (get_or (take n (drop 8 r.content)) 9 0) q p
  sent n block r q p lt c (eq, ep) =
      subst (λ q. IsByte dsk.fd r.ret (get_or (take n (drop 8 r.content)) 9 0) q p) (sym eq)
        (
          refl,
          c,
          ap (λ x. x.ret) ep,
          ap (λ x. get_or x.content 17 0) ep
              ∙ sym (get_or-take n 9 (drop 8 r.content) lt ∙ get_or-drop 8 9 17 r.content refl),
        )

  send-Reads :
      (buffer : Bytes)
      → length buffer ≡ 1024
      → Ensures Any
          (scsi_send_command (heard k) dsk.fd log_temperature buffer dxfer_from_dev)
          (λ page s. Reads page s.world)
  unfolding scsi_send_command
  send-Reads buffer e = Ensures-bind (ioctl-Newest k _) λ r.
      Ensures-pure _ (λ s q.
        Newest-map s.world.1 (λ a b. sent (length buffer) _ r a b (omega (arith, e)) refl) q)

  sg_io-Reads :
      (buffer : Bytes)
      → length buffer ≡ 1024
      → Ensures Any
          (scsi_sg_io (heard k) dsk.fd log_temperature (length buffer) 0 dxfer_from_dev)
          (λ r s. (length r.content ≡ 1024) × Reads (r.ret, r.content) s.world)
  unfolding scsi_sg_io ◌>>=◌
  sg_io-Reads buffer e = record {
    at = λ s q. (sizes.content _ s.world.0 ∙ e, (refl, refl, refl, refl));
  }

  logsense-Reads :
      Ensures Any
        (scsi_logsense (heard k) dsk.fd temperature_page 1024)
        (λ page s. Reads page s.world)
  unfolding scsi_logsense
  logsense-Reads =
      scsi_command-Ensures (heard k) dsk.fd log_temperature dxfer_from_dev 1024 Reads sg_io-Reads
        send-Reads (k.stack 1024) (sizes.stack 1024)

  give_up-Told :
      (text : Bytes) (ret : GetTemp)
      → IfRead ⊥ ret
      → LeavesTold (IsFromScsi dsk) (give_up (heard k) dsk text ret)
  unfolding give_up
  give_up-Told text ret h = close-Tells _ k ret (set_errormsg dsk text) h

  told :
      (page : ℕ × Bytes) (q : Request) (p : Reply)
      → not (page.0 == 0) ≡ false
      → IsByte dsk.fd page.0 (get_or page.1 9 0) q p
      → IsFromScsi dsk (record dsk { value = pos (get_or page.1 9 0) }) q p
  told page (sg_io fd hdr) p z (f, c, r, v) =
      (get_or page.1 9 0, (f, c, is_zero p.ret page.0 r z, v), refl)
  told page (send_request fd block) p z (f, c, r, v) =
      (get_or page.1 9 0, (f, c, is_zero p.ret page.0 r z, v), refl)
  told page (hdio_get_identity fd) p z h = absurd h
  told page (hdio_drive_cmd fd args) p z h = absurd h
  told page (scsi_get_bus_number fd) p z h = absurd h

  scsi_read_page-Told : LeavesTold (IsFromScsi dsk) (scsi_read_page (heard k) dsk)
  unfolding scsi_read_page
  scsi_read_page-Told = Ensures-bind logsense-Reads λ page.
      Ensures-if (not (page.0 == 0))
        (λ _. Ensures-from (Ensures-bind Runs-get_errno λ errno. give_up-Told _ gettemp_error tt))
        (λ z. Ensures-pure _ (λ s q. Newest-map s.world.1 (λ a b. told page a b z) q))

  scsi_read_value-Told : LeavesTold (IsFromScsi dsk) (scsi_read_value (heard k) dsk)
  unfolding scsi_read_value
  scsi_read_value-Told =
      Ensures-bind (scsi_logsense-Runs (heard k) dsk.fd support_log_pages 1024) λ pages.
        Ensures-if (not (pages.0 == 0))
          (λ _. Ensures-bind Runs-get_errno λ errno. give_up-Told _ gettemp_error tt)
          (λ _.
            Ensures-if (lists_page (get_or pages.1 3 0) pages.1 4) (λ _. scsi_read_page-Told)
              (λ _. Ensures-pure _ (λ s q. tt)))

  scsi_with_entry-Told : LeavesTold (IsFromScsi dsk) (scsi_with_entry (heard k) dsk)
  unfolding scsi_with_entry
  scsi_with_entry-Told = Ensures-bind (scsi_smartsupport-Runs (heard k) dsk.fd) λ smart.
      Ensures-if (not smart) (λ _. give_up-Told _ not_applicable tt)
        (λ _. Ensures-bind (scsi_smart_dexcpt_disable-Runs (heard k) dsk.fd) λ ret.
          Ensures-if (not (ret == 0))
            (λ _. Ensures-bind Runs-get_errno λ errno. give_up-Told _ gettemp_error tt)
            (λ _. scsi_read_value-Told))

pub scsi_get_temperature-Told :
    {W : Type 0} (k : Kernel W) (sizes : HasSizes k) (dsk : Disk)
    → LeavesTold (IsFromScsi dsk) (scsi_get_temperature (heard k) dsk)
unfolding scsi_get_temperature
scsi_get_temperature-Told k sizes dsk =
    scsi_with_entry-Told k sizes (record dsk { db_entry = some scsi_entry })
