-- ===== src/Daemon/Logs.antt =====
-- src/daemon.c: the lines that the daemon logs.
use hddtemp.Prelude.{List, [], ◌∷◌, ◌++◌, ◌≡◌, refl, Bytes, codes, append_assoc}
use hddtemp.Device.{
  Disk, GetTemp, gettemp_error, not_applicable, unknown, known, no_sensor, drive_sleep,
}
use hddtemp.Device.Ensures.{Ensures, Ensures-bind, Ensures-pure}
use hddtemp.Device.Kept.{Any, Ensures-given}
use hddtemp.Printf.{show_int}
use hddtemp.Hddtemp.{Output}
use hddtemp.Hddtemp.Served.{Shown, deref-Runs, value_to_unit-IsSome, get_unit-IsSome}
use hddtemp.Daemon.{Level, log_info, log_warning, log_err, log_line, log_all}

-- The result of the last query can be shown.
abbrev pub AllShown : List Disk → Type 0
AllShown [] = Unit {0}
AllShown (d ∷ ds) = Shown d.ret d × AllShown ds

-- A temperature is information, a drive without one a warning, a drive that fails an error.
abbrev pub level_of : GetTemp → Level
level_of gettemp_error = log_err
level_of not_applicable = log_err
level_of unknown = log_warning
level_of known = log_info
level_of no_sensor = log_warning
level_of drive_sleep = log_warning

-- A line about the drive, of the level of its last result.
abbrev pub IsLine : Disk → Level × Bytes → Type 0
IsLine dsk line =
    (line.0 ≡ level_of dsk.ret) × (more : Bytes) × (line.1 ≡ dsk.drive ++ (codes ": " ++ more))

-- Of each disk in turn one line.
abbrev pub IsLog : List Disk → List (Level × Bytes) → Type 0
IsLog [] [] = Unit {0}
IsLog [] (line ∷ lines) = ⊥
IsLog (d ∷ ds) [] = ⊥
IsLog (d ∷ ds) (line ∷ lines) = IsLine d line × IsLog ds lines

module _ {W : Type 0} where
  log_line-IsLine :
      (o : Output) (ret : GetTemp) (dsk : Disk)
      → dsk.ret ≡ ret
      → Shown ret dsk
      → Ensures {W = W} Any (log_line o ret dsk) (λ line s. IsLine dsk line)
  unfolding log_line
  log_line-IsLine o gettemp_error dsk e h =
      Ensures-pure _ (λ s q. (rw e refl, dsk.errormsg, simp (append_assoc)))
  log_line-IsLine o not_applicable dsk e h = Ensures-bind (deref-Runs _ h.0) λ model.
      Ensures-pure _
        (λ s q. (rw e refl, model ++ (codes ": " ++ dsk.errormsg), simp (append_assoc)))
  log_line-IsLine o unknown dsk e h = Ensures-bind (deref-Runs _ h.0) λ model.
      Ensures-pure _ (λ s q. (rw e refl, model ++ codes ": no sensor", simp (append_assoc)))
  log_line-IsLine o known dsk e h = Ensures-bind (deref-Runs _ h.0) λ model.
      Ensures-bind (deref-Runs _ (value_to_unit-IsSome o.unit dsk h.1)) λ value.
        Ensures-bind (deref-Runs _ (get_unit-IsSome o.unit dsk h.1)) λ unit. Ensures-pure _ (λ s q.
          (
            rw e refl,
            model ++ (codes ": " ++ (show_int value ++ b' ' ∷ unit ∷ [])),
            simp (append_assoc),
          ))
  log_line-IsLine o no_sensor dsk e h = Ensures-bind (deref-Runs _ h.0) λ model.
      Ensures-pure _ (λ s q. (rw e refl, model ++ codes ": no sensor", simp (append_assoc)))
  log_line-IsLine o drive_sleep dsk e h = Ensures-bind (deref-Runs _ h.0) λ model.
      Ensures-pure _ (λ s q. (rw e refl, model ++ codes ": drive is sleeping", simp (append_assoc)))

  pub log_all-IsLog :
      (o : Output) (disks : List Disk)
      → AllShown disks
      → Ensures {W = W} Any (log_all o disks) (λ lines s. IsLog disks lines)
  unfolding log_all
  log_all-IsLog o [] h = Ensures-pure _ (λ s q. tt)
  log_all-IsLog o (d ∷ ds) h = Ensures-bind (log_line-IsLine o d.ret d refl h.0) λ line.
      Ensures-given λ i.
        Ensures-bind (log_all-IsLog o ds h.1)
          λ rest. Ensures-given λ is. Ensures-pure _ (λ s q. (i, is))
