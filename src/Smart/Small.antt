-- ===== src/Smart/Small.antt =====
-- With a kernel whose replies are bytes, the values of the drives are bytes.
use hddtemp.Prelude.{
  ℕ, zero, suc, ◌+◌, ◌<◌, Option, none, some, [], ◌∷◌, ◌≡◌, Bytes, get_or, take, drop, arith,
}
use hddtemp.Prelude.Int.{ℤ, pos, negsuc}
use hddtemp.Device.{Disk, GetTemp, Request, Kernel, Dev, ◌>>=◌, pure, ioctl, close_disk}
use hddtemp.Device.Ensures.{Ensures, Ensures-pure}
use hddtemp.Device.Kept.{Any}
use hddtemp.Ata.{new_value}
use hddtemp.Smart.{swapb, swap_words}
use hddtemp.Smart.Raw.{IsBytes}

-- The data of every reply are bytes.
abbrev pub HasBytes : {W : Type 0} → Kernel W → Type 0
HasBytes {W} k = (req : Request) (w : W) → IsBytes (k.ioctl req w).0.content

-- -1, or a byte.
abbrev pub IsSmall : ℤ → Type 0
IsSmall (pos n) = n < 256
IsSmall (negsuc n) = n ≡ 0

pub IsBytes-drop : (n : ℕ) (m : Bytes) → IsBytes m → IsBytes (drop n m)
IsBytes-drop zero m h = h
IsBytes-drop (suc n) [] h = tt
IsBytes-drop (suc n) (c ∷ m) h = IsBytes-drop n m h.1

pub IsBytes-take : (n : ℕ) (m : Bytes) → IsBytes m → IsBytes (take n m)
IsBytes-take zero m h = tt
IsBytes-take (suc n) [] h = tt
IsBytes-take (suc n) (c ∷ m) h = (h.0, IsBytes-take n m h.1)

pub IsBytes-get_or : (m : Bytes) (i : ℕ) → IsBytes m → get_or m i 0 < 256
IsBytes-get_or [] i h = omega arith
IsBytes-get_or (c ∷ m) zero h = h.0
IsBytes-get_or (c ∷ m) (suc i) h = IsBytes-get_or m i h.1

pub IsBytes-swap_words : (n : ℕ) (m : Bytes) → IsBytes m → IsBytes (swap_words n m)
unfolding swap_words swapb
IsBytes-swap_words zero m h = h
IsBytes-swap_words (suc n) [] h = tt
IsBytes-swap_words (suc n) (a ∷ []) h = h
IsBytes-swap_words (suc n) (a ∷ b ∷ m) h =
    (omega arith, (omega arith, IsBytes-swap_words n m h.1.1))

pub new_value-IsSmall :
    (value : ℤ) (values : Bytes) (found : Option ℕ)
    → IsSmall value
    → IsBytes values
    → IsSmall (new_value value values found)
new_value-IsSmall value values none h b = h
new_value-IsSmall value values (some field) h b = IsBytes-get_or values (field + 3) b

module _ {W : Type 0} where
  -- A driver leaves a small value.
  abbrev pub LeavesSmall : Dev W (GetTemp × Disk) → Type 0
  LeavesSmall m = Ensures Any m (λ r s. IsSmall r.1.value)

  pub ioctl-IsBytes :
      (k : Kernel W) (h : HasBytes k) (req : Request)
      → Ensures Any (ioctl k req) (λ r s. IsBytes r.content)
  unfolding ioctl
  ioctl-IsBytes k h req = record { at = λ s q. h req s.world }

  pub LeavesSmall-pure :
      (ret : GetTemp) (dsk : Disk) → IsSmall dsk.value → LeavesSmall (pure (ret, dsk))
  LeavesSmall-pure ret dsk h = Ensures-pure (ret, dsk) (λ s q. h)

  pub LeavesSmall-close_disk :
      (k : Kernel W) (dsk : Disk) (ret : GetTemp)
      → IsSmall dsk.value
      → LeavesSmall (close_disk k dsk >>= λ d. pure (ret, d))
  unfolding close_disk ◌>>=◌
  LeavesSmall-close_disk k dsk ret h = record { at = λ s q. h }
