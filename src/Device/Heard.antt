-- ===== src/Device/Heard.antt =====
-- The requests that the drivers make of a kernel with its replies, and the value that a driver reads
-- from the newest reply.
use hddtemp.Prelude.{ℕ, Option, none, some, List, [], ◌∷◌, ◌≡◌, refl, Bytes, length}
use hddtemp.Prelude.Int.{ℤ, pos}
use hddtemp.Device.{
  Disk, GetTemp, gettemp_error, not_applicable, unknown, known, no_sensor, drive_sleep, Request,
  hdio_get_identity, hdio_drive_cmd, scsi_get_bus_number, sg_io, scsi_send_command, Reply, Kernel,
  Sys, Dev, ◌>>=◌, pure, ioctl, close_disk, print,
}
use hddtemp.Device.Ensures.{Ensures}
use hddtemp.Device.Kept.{Any}

-- The size of the data buffer that a request names: a `struct hd_driveid`, the arguments of the
-- command with the data behind them, an `int`, and the data of a SCSI command.
abbrev pub buffer_size : Request → ℕ
buffer_size (hdio_get_identity fd) = 512
buffer_size (hdio_drive_cmd fd args) = length args
buffer_size (scsi_get_bus_number fd) = 4
buffer_size (sg_io fd hdr) = hdr.dxfer_len
buffer_size (scsi_send_command fd block) = length block

-- Every reply is as long as the request's buffer, and the stack gives buffers of the size asked for.
pub record HasSizes {W : Type 0} (k : Kernel W) : Type 0 where
  pub content : (req : Request) (w : W) → length (k.ioctl req w).0.content ≡ buffer_size req
  pub stack : (n : ℕ) → length (k.stack n) ≡ n

-- The same kernel, in a world that remembers the requests with their replies, the newest first.
abbrev pub heard : {W : Type 0} → Kernel W → Kernel (W × List (Request × Reply))
heard k = record {
  ioctl = λ req w. let (r, w') = k.ioctl req w.0 in (r, (w', (req, r) ∷ w.1));
  close = λ fd w. (k.close fd w.0, w.1);
  strerror = k.strerror;
  stack = k.stack;
}

-- What holds of the newest request and its reply.
abbrev pub Newest : (Request → Reply → Type 0) → List (Request × Reply) → Type 0
Newest P [] = ⊥
Newest P ((req, r) ∷ l) = P req r

-- What is claimed of a temperature that was read, be it known or not in the table.
abbrev pub IfRead : Type 0 → GetTemp → Type 0
IfRead C known = C
IfRead C unknown = C
IfRead C _ = Unit {0}

-- A value, or the one there was.
abbrev pub or_else : ℤ → Option ℕ → ℤ
or_else value none = value
or_else value (some n) = pos n

abbrev pub World : Type 0 → Type 0
World W = W × List (Request × Reply)

module _ {W : Type 0} where
  -- The value that a driver has read is the one that `P` reads from the newest reply.
  abbrev pub Tells : (Disk → Request → Reply → Type 0) → GetTemp × Disk → Sys (World W) → Type 0
  Tells P r s = IfRead (Newest (P r.1) s.world.1) r.0

  abbrev pub LeavesTold :
      (Disk → Request → Reply → Type 0) → Dev (World W) (GetTemp × Disk) → Type 0
  LeavesTold P m = Ensures Any m (Tells P)

  pub ioctl-Newest :
      (k : Kernel W) (req : Request)
      → Ensures Any (ioctl (heard k) req) (λ r s. Newest (λ q p. (q ≡ req) × (p ≡ r)) s.world.1)
  unfolding ioctl
  ioctl-Newest k req = record { at = λ s q. (refl, refl) }

  pub close-Tells :
      (P : Disk → Request → Reply → Type 0) (k : Kernel W) (ret : GetTemp) (dsk : Disk)
      → IfRead ⊥ ret
      → LeavesTold P (close_disk (heard k) dsk >>= λ d. pure (ret, d))
  unfolding close_disk ◌>>=◌
  close-Tells P k gettemp_error dsk h = record { at = λ s q. tt }
  close-Tells P k not_applicable dsk h = record { at = λ s q. tt }
  close-Tells P k unknown dsk h = absurd h
  close-Tells P k known dsk h = absurd h
  close-Tells P k no_sensor dsk h = record { at = λ s q. tt }
  close-Tells P k drive_sleep dsk h = record { at = λ s q. tt }

  -- A text does not touch the world.
  pub print-world :
      (C : W → Type 0) (text : Bytes)
      → Ensures (λ s. C s.world) (print {W = W} text) (λ u s. C s.world)
  unfolding print
  print-world C text = record { at = λ s q. q }

-- What follows from what holds of the newest request.
pub Newest-map :
    {P P' : Request → Reply → Type 0} (l : List (Request × Reply))
    → ((req : Request) (r : Reply) → P req r → P' req r)
    → Newest P l
    → Newest P' l
Newest-map [] f h = absurd h
Newest-map ((req, r) ∷ l) f h = f req r h
