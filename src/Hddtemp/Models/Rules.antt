-- ===== src/Hddtemp/Models/Rules.antt =====
-- What is known of a model that a driver reads, and the rules for reading it.
use hddtemp.Prelude.{ℕ, ◌≤◌, true, false, not, Option, some, ◌==◌, ◌≡◌, ◌≢◌, Bytes, length, arith}
use hddtemp.Device.{BusType, Request, Reply, Kernel, Sys, ioctl, string_at, strdup}
use hddtemp.Device.Ensures.{Post, Ensures}
use hddtemp.Device.Kept.{Any}
use hddtemp.Device.Heard.{buffer_size, HasSizes}
use hddtemp.Hddtemp.Names.{IsNamed, IsModel}

pub is_zero : (n : ℕ) → not (n == 0) ≡ false → n ≡ 0
is_zero n z = ground arith

pub not_zero : (n : ℕ) → not (n == 0) ≡ true → n ≢ 0
not_zero n z e = ground arith

pub strdup-gives :
    {W : Type 0} (P : Bytes → Sys W → Type 0) (m text : Bytes) (s : Sys W)
    → string_at m ≡ some text
    → P text s
    → Post P (strdup m s)
unfolding strdup
strdup-gives P m text s e p = rw (e, Post) p

-- The names in the kernel's replies leave room for a NUL.
abbrev pub HasNames : {W : Type 0} → Kernel W → Type 0
HasNames {W} k = (req : Request) (w : W) → (k.ioctl req w).0.ret ≡ 0 → IsNamed req (k.ioctl req w).0

-- The model is at most 40 bytes long, and is that of a reply of which `Said` holds.
abbrev pub Models :
    {W : Type 0} → (Request → Reply → W → Type 0) → BusType → Option ℕ → Bytes → Sys W → Type 0
Models Said b fd m s =
    (length m ≤ 40) × (q : Request) × (r : Reply) × (Said q r s.world × IsModel b fd m q r)

-- What is known of a reply.
pub record Known {W : Type 0} (Said : Request → Reply → W → Type 0) (req : Request) (r : Reply)
    (s : Sys W) : Type 0 where
  pub is_said : Said req r s.world
  pub is_named : r.ret ≡ 0 → IsNamed req r
  pub size : length r.content ≡ buffer_size req

module _ {W : Type 0} (k : Kernel W) (sizes : HasSizes k) (named : HasNames k)
    (Said : Request → Reply → W → Type 0)
    (said : (req : Request) (w : W) → Said req (k.ioctl req w).0 (k.ioctl req w).1) where
  pub ioctl-Known : (req : Request) → Ensures Any (ioctl k req) (Known Said req)
  unfolding ioctl
  ioctl-Known req = record {
    at = λ s q. record {
      is_said = said req s.world;
      is_named = named req s.world;
      size = sizes.content req s.world;
    };
  }
