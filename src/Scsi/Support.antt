-- ===== src/Scsi/Support.antt =====
-- src/scsicmds.c: which request a command makes, and what is remembered of `SG_IO` in `SG_IO_supported`.
use hddtemp.Prelude.{ℕ, Option, List, [], ◌∷◌, ◌++◌, ◌==◌, ◌≡◌, ◌≢◌, refl, Bytes, length, sym, ◌∙◌}
use hddtemp.Device.{
  SgSupport, untried, unsupported, supported, Kernel, Sys, ◌>>=◌, ioctl, Request, sg_io,
  scsi_send_command as send_request, hdio_get_identity, hdio_drive_cmd, scsi_get_bus_number,
}
use hddtemp.Device.Ensures.{Ensures, Ensures-bind, Ensures-if, Ensures-pure, Ensures-weaken}
use hddtemp.Device.Log.{logged}
use hddtemp.ScsiCmds.{
  Direction, get_sg_support, set_sg_support, scsi_sg_io, scsi_send_command, with_support,
  scsi_command,
}

abbrev pub IsSgIo : Request → Type 0
IsSgIo (sg_io fd hdr) = Unit {0}
IsSgIo (send_request fd block) = ⊥
IsSgIo (hdio_get_identity fd) = ⊥
IsSgIo (hdio_drive_cmd fd args) = ⊥
IsSgIo (scsi_get_bus_number fd) = ⊥

abbrev pub IsSend : Request → Type 0
IsSend (sg_io fd hdr) = ⊥
IsSend (send_request fd block) = Unit {0}
IsSend (hdio_get_identity fd) = ⊥
IsSend (hdio_drive_cmd fd args) = ⊥
IsSend (scsi_get_bus_number fd) = ⊥

abbrev pub All : (Request → Type 0) → List Request → Type 0
All P [] = Unit {0}
All P (r ∷ l) = P r × All P l

-- The flag at the start and at the end, and the requests between. What is known of `SG_IO` stays and
-- decides which call is made; while nothing is known, the first command tries `SG_IO`.
abbrev pub History : SgSupport → SgSupport → List Request → Type 0
History untried untried log = log ≡ []
History untried supported log = All IsSgIo log
History untried unsupported log =
    (r : Request) × (rest : List Request) × (log ≡ r ∷ rest) × IsSgIo r × All IsSend rest
History supported supported log = All IsSgIo log
History unsupported unsupported log = All IsSend log
History supported untried log = ⊥
History supported unsupported log = ⊥
History unsupported untried log = ⊥
History unsupported supported log = ⊥

pub All-append :
    (P : Request → Type 0) (l : List Request) (r : Request) → All P l → P r → All P (l ++ r ∷ [])
All-append P [] r h p = (p, tt)
All-append P (q ∷ l) r h p = (h.0, All-append P l r h.1 p)

History-sg_io :
    (v : SgSupport) (log : List Request) (r : Request)
    → History v supported log
    → IsSgIo r
    → History v supported (log ++ r ∷ [])
History-sg_io untried log r h p = All-append IsSgIo log r h p
History-sg_io supported log r h p = All-append IsSgIo log r h p
History-sg_io unsupported log r h p = absurd h

History-send :
    (v : SgSupport) (log : List Request) (r : Request)
    → History v unsupported log
    → IsSend r
    → History v unsupported (log ++ r ∷ [])
History-send untried log r (q, rest, e, s, h) p =
    (q, rest ++ r ∷ [], rw e refl, s, All-append IsSend rest r h p)
History-send unsupported log r h p = All-append IsSend log r h p
History-send supported log r h p = absurd h

History-first :
    (v : SgSupport) (log : List Request) (r : Request)
    → History v untried log
    → IsSgIo r
    → History v supported (log ++ r ∷ [])
History-first untried log r h p = rw h (p, tt)
History-first supported log r h p = absurd h
History-first unsupported log r h p = absurd h

History-fallback :
    (v : SgSupport) (log : List Request) (r : Request)
    → History v untried log
    → IsSgIo r
    → History v unsupported (log ++ r ∷ [])
History-fallback untried log r h p = (r, [], rw h refl, p, tt)
History-fallback supported log r h p = absurd h
History-fallback unsupported log r h p = absurd h

module _ {W : Type 0} (k : Kernel W) (v : SgSupport) where
  abbrev pub Flag : Sys (W × List Request) → SgSupport → Type 0
  Flag s f = (s.sg_support ≡ f) × History v f s.world.1

  abbrev pub Known : Sys (W × List Request) → Type 0
  Known s = History v s.sg_support s.world.1

  abbrev pub Decided : Sys (W × List Request) → Type 0
  Decided s = History v s.sg_support s.world.1 × (s.sg_support ≢ untried)

  -- The first request is made, and the flag is still to be written.
  abbrev Asked : Sys (W × List Request) → Type 0
  Asked s = History v supported s.world.1 × History v unsupported s.world.1

  scsi_sg_io-Asked :
      (device : Option ℕ) (cdb : Bytes) (n m : ℕ) (dir : Direction)
      → Ensures (λ s. Flag s untried) (scsi_sg_io (logged k) device cdb n m dir) (λ r s. Asked s)
  unfolding scsi_sg_io ioctl
  scsi_sg_io-Asked device cdb n m dir = record {
    at = λ s q. (History-first v s.world.1 _ q.1 tt, History-fallback v s.world.1 _ q.1 tt);
  }

  scsi_sg_io-Flag :
      (device : Option ℕ) (cdb : Bytes) (n m : ℕ) (dir : Direction)
      → Ensures
          (λ s. Flag s supported)
          (scsi_sg_io (logged k) device cdb n m dir)
          (λ r s. Flag s supported)
  unfolding scsi_sg_io ioctl
  scsi_sg_io-Flag device cdb n m dir = record {
    at = λ s q. (q.0, History-sg_io v s.world.1 _ q.1 tt);
  }

  scsi_send_command-Flag :
      (device : Option ℕ) (cdb buffer : Bytes) (dir : Direction)
      → Ensures
          (λ s. Flag s unsupported)
          (scsi_send_command (logged k) device cdb buffer dir)
          (λ r s. Flag s unsupported)
  unfolding scsi_send_command ◌>>=◌
  scsi_send_command-Flag device cdb buffer dir = record {
    at = λ s q. (q.0, History-send v s.world.1 _ q.1 tt);
  }

  set_supported :
      Ensures Asked (set_sg_support {W = W × List Request} supported) (λ u s. Flag s supported)
  unfolding set_sg_support
  set_supported = record { at = λ s q. (refl, q.0) }

  set_unsupported :
      Ensures Asked (set_sg_support {W = W × List Request} unsupported) (λ u s. Flag s unsupported)
  unfolding set_sg_support
  set_unsupported = record { at = λ s q. (refl, q.1) }

  Flag-Decided : (s : Sys (W × List Request)) (f : SgSupport) → Flag s f → f ≢ untried → Decided s
  Flag-Decided s f q n = (rw q.0 q.1, λ e. n (sym q.0 ∙ e))

  with_support-Decided :
      (device : Option ℕ) (cdb buffer : Bytes) (dir : Direction) (support : SgSupport)
      → Ensures
          (λ s. Flag s support)
          (with_support (logged k) device cdb buffer dir support)
          (λ r s. Decided s)
  unfolding with_support
  with_support-Decided device cdb buffer dir supported =
      Ensures-bind (scsi_sg_io-Flag device cdb (length buffer) 0 dir)
        λ r. Ensures-pure _ (λ s q. Flag-Decided s supported q (λ e. cc))
  with_support-Decided device cdb buffer dir unsupported =
      Ensures-weaken (scsi_send_command-Flag device cdb buffer dir)
        (λ r s q. Flag-Decided s unsupported q (λ e. cc))
  with_support-Decided device cdb buffer dir untried =
      Ensures-bind (scsi_sg_io-Asked device cdb (length buffer) 0 dir) λ r.
        Ensures-if (r.ret == 0)
          (λ _.
            Ensures-bind set_supported
              λ _. Ensures-pure _ (λ s q. Flag-Decided s supported q (λ e. cc)))
          (λ _. Ensures-bind set_unsupported λ _.
            Ensures-weaken (scsi_send_command-Flag device cdb r.content dir)
              (λ x s q. Flag-Decided s unsupported q (λ e. cc)))

  get_sg_support-Flag : Ensures Known (get_sg_support {W = W × List Request}) (λ f s. Flag s f)
  unfolding get_sg_support
  get_sg_support-Flag = record { at = λ s q. (refl, q) }

  pub scsi_command-Decided :
      (device : Option ℕ) (cdb buffer : Bytes) (dir : Direction)
      → Ensures Known (scsi_command (logged k) device cdb buffer dir) (λ r s. Decided s)
  unfolding scsi_command
  scsi_command-Decided device cdb buffer dir =
      Ensures-bind get_sg_support-Flag λ f. with_support-Decided device cdb buffer dir f
