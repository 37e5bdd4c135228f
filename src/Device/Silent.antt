-- ===== src/Device/Silent.antt =====
-- Actions that print nothing on the standard output.
use hddtemp.Prelude.{[], ◌++◌, ◌≡◌, refl, ◌∙◌, append-nil, Bytes}
use hddtemp.Device.{
  Disk, Request, Kernel, Sys, Dev, ◌>>=◌, pure, get_errno, print, eprint, ioctl, close_disk,
}
use hddtemp.Device.Ensures.{Ensures, Ensures-pure}
use hddtemp.Device.Kept.{Any}

module _ {W : Type 0} (out : Bytes) where
  abbrev pub Says : Sys W → Type 0
  Says s = s.stdout ≡ out

  abbrev pub Silent : {A : Type 0} → Dev W A → Type 0
  Silent m = Ensures Says m (λ a s. Says s)

  pub Silent-pure : {A : Type 0} (a : A) → Silent (pure a)
  Silent-pure a = Ensures-pure a (λ s q. q)

  pub Silent-get_errno : Silent get_errno
  unfolding get_errno
  Silent-get_errno = record { at = λ s q. q }

  pub Silent-ioctl : (k : Kernel W) (req : Request) → Silent (ioctl k req)
  unfolding ioctl
  Silent-ioctl k req = record { at = λ s q. q }

  pub Silent-close_disk :
      {A : Type 0} (k : Kernel W) (dsk : Disk) (a : Disk → A)
      → Silent (close_disk k dsk >>= λ d. pure (a d))
  unfolding close_disk ◌>>=◌ pure
  Silent-close_disk k dsk a = record { at = λ s q. q }

  pub Silent-eprint : (text : Bytes) → Silent (eprint text)
  unfolding eprint
  Silent-eprint text = record { at = λ s q. q }

  -- A text of no bytes.
  pub Silent-print : (text : Bytes) → text ≡ [] → Silent (print text)
  unfolding print
  Silent-print text e = record { at = λ s q. rw e (append-nil s.stdout ∙ q) }

  pub print-Says : (text : Bytes) → Ensures Says (print text) (λ a s. s.stdout ≡ out ++ text)
  unfolding print
  print-Says text = record { at = λ s q. rw q refl }

module _ {W A : Type 0} where
  -- More is known of the state before.
  pub Ensures-from :
      {Q : Sys W → Type 0} {P : A → Sys W → Type 0} {m : Dev W A} → Ensures Any m P → Ensures Q m P
  Ensures-from h = record { at = λ s q. h.at s tt }
