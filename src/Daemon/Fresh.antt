-- ===== src/Daemon/Fresh.antt =====
-- src/daemon.c: how old the answers are that the daemon gives.
use hddtemp.Prelude.{
  ℕ, ◌+◌, ◌≤◌, ◌<◌, Bool, true, false, some, ◌≡◌, refl, ◌⊎◌, inl, inr, ltb, ltb→lt, arith,
  if◌then◌else◌,
}
use hddtemp.Prelude.Int.{negsuc}
use hddtemp.Device.{Disk, GetTemp, Kernel, Sys, ◌>>=◌, pure}
use hddtemp.Device.Ensures.{Post, Ensures, Ensures-bind, Ensures-run, Ensures-weaken}
use hddtemp.Device.Kept.{IsServed}
use hddtemp.Device.Silent.{Ensures-from}
use hddtemp.Hddtemp.{Output, flags_of, query}
use hddtemp.Hddtemp.Served.{Answered, query-Answered}
use hddtemp.Daemon.{delay, time, is_due, ask, update_disk}
use hddtemp.Daemon.Served.{ServedOn-fields}

module _ {W : Type 0} (k : Kernel W) (clock : W → ℕ × W) (o : Output) where
  -- The disk as it is asked: its value is -1.
  abbrev pub cleared : Disk → Disk
  cleared dsk = record dsk { value = negsuc 0 }

  -- A disk that was asked in a state, and what the query and a reading of the clock behind it have left: its
  -- result and what the driver made of the disk, the time, and the state behind the reading.
  pub record IsAsked (dsk : Disk) (s : Sys W) (dsk' : Disk) (s' : Sys W) : Type 0 where
    pub answer : GetTemp × Disk
    pub behind : Sys W
    pub asked : query k (flags_of o) dsk.bus (cleared dsk) s ≡ some (answer, behind)
    pub is_answer : dsk' ≡ record answer.1 { ret = answer.0; last_time = (clock behind.world).0 }
    pub is_behind : s' ≡ record behind { world = (clock behind.world).1 }
    pub same : Answered (cleared dsk) answer

  -- What an update makes of the disk: `now` is the clock when it is reached.
  abbrev pub IsUpdate : ℕ → Disk → Sys W → Disk → Sys W → Type 0
  IsUpdate now dsk s dsk' s' =
      ((now ≤ dsk.last_time + delay) × (dsk' ≡ dsk) × (s' ≡ s))
      ⊎ ((dsk.last_time + delay < now) × IsAsked dsk s dsk' s')

  ask-IsAsked :
      (dsk : Disk) (s : Sys W)
      → IsServed dsk
      → Ensures (λ s₀. s₀ ≡ s) (ask k clock o dsk) (λ d s'. IsAsked dsk s d s')
  unfolding ask time ◌>>=◌
  ask-IsAsked dsk s h =
      Ensures-bind
        (Ensures-run (
          Ensures-from (
            query-Answered k (flags_of o) dsk.bus (cleared dsk) refl
              (ServedOn-fields dsk.bus dsk (cleared dsk) refl refl h))))
        λ r. record {
          at = λ s₁ a. record {
            answer = r;
            behind = s₁;
            asked = rw (← a.1.1) a.1.2;
            is_answer = refl;
            is_behind = refl;
            same = a.0;
          };
        }

  due-IsUpdate :
      (dsk : Disk) (now : ℕ) (s : Sys W)
      → IsServed dsk
      → (due : Bool) → ltb (dsk.last_time + delay) now ≡ due
      → Post
          (λ dsk' s'. IsUpdate now dsk s dsk' s')
          ((if due then ask k clock o dsk else pure dsk) s)
  unfolding pure
  due-IsUpdate dsk now s h true e =
      (Ensures-weaken (ask-IsAsked dsk s h)
          (λ d s' a. inr (ltb→lt (dsk.last_time + delay) now e, a))).at
        s refl
  due-IsUpdate dsk now s h false e = inl (ground arith, refl, refl)

  -- Of a disk that can be served, the clock is read. If it is at most 60 seconds behind the disk's last time,
  -- the disk and the state stay as they are. Else the driver is asked in this state, with the disk's value set
  -- to -1: the disk becomes what the driver has made of it, with the result of the query and with the time
  -- that the clock gives behind it; its drive, model and type are the same, and it can be served again.
  pub update_disk-IsUpdate :
      (dsk : Disk) (s : Sys W)
      → IsServed dsk
      → Post
          (λ dsk' s'.
            IsUpdate (clock s.world).0 dsk (record s { world = (clock s.world).1 }) dsk' s')
          (update_disk k clock o false dsk s)
  unfolding update_disk is_due time ◌>>=◌
  update_disk-IsUpdate dsk s h =
      due-IsUpdate dsk (clock s.world).0 (record s { world = (clock s.world).1 }) h
        (ltb (dsk.last_time + delay) (clock s.world).0) refl
