-- ===== src/Scsi/Command.antt =====
-- src/scsicmds.c: what `scsi_command` ensures, by the rules of the two calls that it may make.
use hddtemp.Prelude.{ℕ, Option, ◌==◌, ◌≡◌, Bytes, length}
use hddtemp.Device.{SgSupport, untried, unsupported, supported, Kernel}
use hddtemp.Device.Ensures.{Ensures, Ensures-bind, Ensures-if, Ensures-pure}
use hddtemp.Device.Kept.{Any}
use hddtemp.ScsiCmds.{
  Direction, set_sg_support, scsi_sg_io, scsi_send_command, with_support, scsi_command,
}
use hddtemp.Scsi.Kept.{get_sg_support-Runs}

-- `P` says of a result what holds in the world behind it, and `n` is the size of the buffer.
module _ {W : Type 0} (k : Kernel W) (fd : Option ℕ) (cdb : Bytes) (dir : Direction) (n : ℕ)
    (P : ℕ × Bytes → W → Type 0)
    (by_sg_io : (buffer : Bytes)
      → length buffer ≡ n
      → Ensures Any
          (scsi_sg_io k fd cdb (length buffer) 0 dir)
          (λ r s. (length r.content ≡ n) × P (r.ret, r.content) s.world))
    (by_send : (buffer : Bytes)
      → length buffer ≡ n
      → Ensures Any (scsi_send_command k fd cdb buffer dir) (λ p s. P p s.world)) where
  set_sg_support-keeps :
      (C : W → Type 0) (v : SgSupport)
      → Ensures (λ s. C s.world) (set_sg_support v) (λ u s. C s.world)
  unfolding set_sg_support
  set_sg_support-keeps C v = record { at = λ s q. q }

  with_support-Ensures :
      (buffer : Bytes) (v : SgSupport)
      → length buffer ≡ n
      → Ensures Any (with_support k fd cdb buffer dir v) (λ p s. P p s.world)
  unfolding with_support
  with_support-Ensures buffer supported e =
      Ensures-bind (by_sg_io buffer e) λ r. Ensures-pure _ (λ s q. q.1)
  with_support-Ensures buffer unsupported e = by_send buffer e
  with_support-Ensures buffer untried e = Ensures-bind (by_sg_io buffer e) λ r.
      let after : W → Type 0 = λ w. (length r.content ≡ n) × P (r.ret, r.content) w in
      Ensures-if (r.ret == 0)
        (λ _. Ensures-bind (set_sg_support-keeps after supported) λ u. Ensures-pure _ (λ s q. q.1))
        (λ _.
          Ensures-bind (set_sg_support-keeps after unsupported)
            λ u. record { at = λ s q. (by_send r.content q.0).at s tt })

  pub scsi_command-Ensures :
      (buffer : Bytes)
      → length buffer ≡ n
      → Ensures Any (scsi_command k fd cdb buffer dir) (λ p s. P p s.world)
  unfolding scsi_command
  scsi_command-Ensures buffer e =
      Ensures-bind (get_sg_support-Runs k) λ v. with_support-Ensures buffer v e
