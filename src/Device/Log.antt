-- ===== src/Device/Log.antt =====
-- The requests that the drivers make of a kernel, in their order.
use hddtemp.Prelude.{ℕ, Option, true, false, none, List, [], ◌∷◌, ◌++◌, ◌≡◌, ◌⊎◌, codes}
use hddtemp.Prelude.Int.{is_minus_one}
use hddtemp.Device.{
  Request, hdio_get_identity, hdio_drive_cmd, scsi_get_bus_number, sg_io, scsi_send_command, Kernel,
  Sys, Disk, Flags, GetTemp, gettemp_error, not_applicable, unknown, known, no_sensor, drive_sleep,
}

-- The same kernel, in a world that remembers the requests.
abbrev pub logged : {W : Type 0} → Kernel W → Kernel (W × List Request)
logged k = record {
  ioctl = λ req w. let (r, w') = k.ioctl req w.0 in (r, (w', w.1 ++ req ∷ []));
  close = λ fd w. (k.close fd w.0, w.1);
  strerror = k.strerror;
  stack = k.stack;
}

-- Checking the power mode of the drive behind the descriptor.
abbrev pub IsPowerMode : Option ℕ → Request → Type 0
IsPowerMode fd (hdio_get_identity fd') = ⊥
IsPowerMode fd (hdio_drive_cmd fd' []) = ⊥
IsPowerMode fd (hdio_drive_cmd fd' (c ∷ args)) = (fd' ≡ fd) × ((c ≡ 0xe5) ⊎ (c ≡ 0x98))
IsPowerMode fd (scsi_get_bus_number fd') = ⊥
IsPowerMode fd (sg_io fd' hdr) = ⊥
IsPowerMode fd (scsi_send_command fd' block) = ⊥

-- The same, or asking this drive for its identity: neither disturbs it.
abbrev pub IsHarmless : Option ℕ → Request → Type 0
IsHarmless fd req = (req ≡ hdio_get_identity fd) ⊎ IsPowerMode fd req

abbrev pub AllSuch : (Request → Type 0) → List Request → Type 0
AllSuch H [] = Unit {0}
AllSuch H (r ∷ l) = H r × AllSuch H l

pub AllSuch-append :
    (H : Request → Type 0) (l : List Request) (r : Request)
    → AllSuch H l
    → H r
    → AllSuch H (l ++ r ∷ [])
AllSuch-append H [] r hl hr = (hr, tt)
AllSuch-append H (q ∷ l) r hl hr = (hl.0, AllSuch-append H l r hl.1 hr)

-- So far every request was such a one.
abbrev pub Quiet : {W : Type 0} → (Request → Type 0) → Sys (W × List Request) → Type 0
Quiet H s = AllSuch H s.world.1

-- What a call of a driver's `get_temperature` leaves, for each result; `H` is what it may ask of a drive
-- that turns out to sleep.
abbrev pub Fate :
    {W : Type 0}
    → (Request → Type 0)
    → Flags
    → Disk
    → GetTemp × Disk
    → Sys (W × List Request)
    → Type 0
Fate H flags dsk (gettemp_error, dsk') s = dsk'.fd ≡ none
Fate H flags dsk (not_applicable, dsk') s = dsk'.errormsg ≡ codes "S.M.A.R.T. not available"
Fate H flags dsk (unknown, dsk') s = (dsk'.fd ≡ dsk.fd) × (is_minus_one dsk'.value ≡ true)
Fate H flags dsk (known, dsk') s = (dsk'.fd ≡ dsk.fd) × (is_minus_one dsk'.value ≡ false)
Fate H flags dsk (no_sensor, dsk') s = dsk'.fd ≡ none
Fate H flags dsk (drive_sleep, dsk') s = (dsk' ≡ dsk) × (flags.wakeup ≡ false) × Quiet H s
