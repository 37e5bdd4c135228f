-- ===== src/Hddtemp/Lines.antt =====
-- src/hddtemp.c: what the direct mode prints for a script, with -n and -q.
use hddtemp.Prelude.{
  true, false, Option, none, some, List, [], ◌∷◌, ◌++◌, ◌≡◌, refl, sym, ◌∙◌, append_assoc,
  append-nil, Bytes,
}
use hddtemp.Prelude.Int.{ℤ}
use hddtemp.Printf.{show_int}
use hddtemp.Device.{
  BusType, error, bus_unknown, bus_sata, bus_ata, bus_scsi, Disk, GetTemp, gettemp_error,
  not_applicable, unknown, known, no_sensor, drive_sleep, Kernel, Sys, Dev, ◌>>=◌, print,
}
use hddtemp.Device.Ensures.{
  Post, Ensures, Ensures-both, Ensures-run, Ensures-bind, Ensures-pure, Ensures-weaken,
}
use hddtemp.Device.Kept.{IsSome, IsServed, ServedOn}
use hddtemp.Device.Silent.{Says, Silent, Silent-pure, Silent-eprint, print-Says, Ensures-from}
use hddtemp.Ata.Silent.{ata_get_temperature-Silent}
use hddtemp.Sata.Silent.{sata_get_temperature-Silent}
use hddtemp.Scsi.Silent.{scsi_get_temperature-Silent}
use hddtemp.Units.{value_to_unit}
use hddtemp.Hddtemp.{
  Output, flags_of, deref, bus_get_temperature, query, zero_or, show_result, show_known,
  show_outcome, show_banner, display_temperature, display_all, do_direct_mode,
}
use hddtemp.Hddtemp.Served.{Shown, AllServed, query-Answered, value_to_unit-IsSome}

-- The same settings with -n and -q, and without -D.
abbrev pub for_scripts : Output → Output
for_scripts o = record o { debug = false; numeric = true; quiet = true }

-- The line of a drive, by the result of its query: its value, or 0; none for a drive that failed.
abbrev pub value_line : Option ℤ → Bytes
value_line none = []
value_line (some value) = show_int value ++ b'\n' ∷ []

abbrev pub line_of : Output → GetTemp → Disk → Bytes
line_of o gettemp_error dsk = []
line_of o known dsk = value_line (value_to_unit o.unit dsk)
line_of o _ dsk = b'0' ∷ b'\n' ∷ []

module _ {W : Type 0} (k : Kernel W) (o : Output) where
  -- The query of the disk, made when this was printed, has given the result and has left the disk.
  abbrev pub HasGiven : Bytes → Disk → GetTemp → Disk → Type 0
  HasGiven out d ret d' =
      (s s' : Sys W) × ((s.stdout ≡ out)
        × (query k (flags_of (for_scripts o)) d.bus d s ≡ some ((ret, d'), s')))

  -- The lines of the drives in turn, printed behind `out`: each is that of the result of the disk's
  -- own query.
  abbrev pub AreLines : Bytes → List Disk → List Disk → Bytes → Type 0
  AreLines out [] [] text = text ≡ []
  AreLines out [] (d' ∷ ds') text = ⊥
  AreLines out (d ∷ ds) [] text = ⊥
  AreLines out (d ∷ ds) (d' ∷ ds') text =
      (ret : GetTemp) × (rest : Bytes) × (HasGiven out d ret d'
        × (text ≡ line_of o ret d' ++ rest)
        × AreLines (out ++ line_of o ret d') ds ds' rest)

module _ {W : Type 0} (out : Bytes) (o : Output) where
  -- The action puts the text behind what was printed.
  abbrev Prints : {A : Type 0} → Dev W A → Bytes → Type 0
  Prints m text = Ensures (Says out) m (λ a s. s.stdout ≡ out ++ text)

  deref-Silent : {A : Type 0} (v : Option A) → IsSome v → Silent {W = W} out (deref v)
  deref-Silent none i = absurd i
  deref-Silent (some a) i = Silent-pure out a

  deref-value :
      (v : Option ℤ)
      → IsSome v
      → Prints (deref v >>= λ value. print (show_int value ++ b'\n' ∷ [])) (value_line v)
  deref-value none i = absurd i
  deref-value (some value) i =
      Ensures-bind {M = λ x s. (x ≡ value) × Says out s} (Ensures-pure value (λ s q. (refl, q)))
        λ x. record {
          at = λ s h. rw (← h.0) ((print-Says out (show_int x ++ b'\n' ∷ [])).at s h.1);
        }

  show_result-line :
      (dsk : Disk) (model : Bytes) (ret : GetTemp)
      → IsSome dsk.db_entry
      → Prints (show_result (for_scripts o) dsk model ret) (line_of o ret dsk)
  unfolding show_result zero_or
  show_result-line dsk model gettemp_error i = Ensures-pure _ (λ s q. q ∙ sym (append-nil out))
  show_result-line dsk model not_applicable i = print-Says out _
  show_result-line dsk model unknown i = Ensures-bind (Silent-pure out _) λ _. print-Says out _
  show_result-line dsk model known i =
      deref-value (value_to_unit o.unit dsk) (value_to_unit-IsSome o.unit dsk i)
  show_result-line dsk model no_sensor i = print-Says out _
  show_result-line dsk model drive_sleep i = print-Says out _

  -- The disk stays as it was, and its line is printed.
  abbrev Shows : Dev W Disk → GetTemp → Disk → Type 0
  Shows m ret dsk = Ensures (Says out) m (λ d s. (d ≡ dsk) × (s.stdout ≡ out ++ line_of o ret dsk))

  show_known-Shows :
      (ret : GetTemp) (dsk : Disk)
      → IsSome dsk.model × IsSome dsk.db_entry
      → Shows (show_known (for_scripts o) ret dsk) ret dsk
  unfolding show_known
  show_known-Shows ret dsk h =
      Ensures-bind (deref-Silent dsk.model h.0)
        λ m. Ensures-bind (show_result-line dsk m ret h.1) λ _. Ensures-pure _ (λ s q. (refl, q))

  show_outcome-Shows :
      (ret : GetTemp) (dsk : Disk)
      → Shown ret dsk
      → Shows (show_outcome (for_scripts o) (ret, dsk)) ret dsk
  unfolding show_outcome
  show_outcome-Shows gettemp_error dsk h =
      Ensures-bind (Silent-eprint out _)
        λ _. Ensures-pure _ (λ s q. (refl, q ∙ sym (append-nil out)))
  show_outcome-Shows not_applicable dsk h = show_known-Shows not_applicable dsk h
  show_outcome-Shows unknown dsk h = show_known-Shows unknown dsk h
  show_outcome-Shows known dsk h = show_known-Shows known dsk h
  show_outcome-Shows no_sensor dsk h = show_known-Shows no_sensor dsk h
  show_outcome-Shows drive_sleep dsk h = show_known-Shows drive_sleep dsk h

  show_banner-Silent :
      (b : BusType) (dsk : Disk) → Silent {W = W} out (show_banner (for_scripts o) b dsk)
  unfolding show_banner
  show_banner-Silent error dsk = Silent-pure out _
  show_banner-Silent bus_unknown dsk = Silent-pure out _
  show_banner-Silent bus_sata dsk = Silent-pure out _
  show_banner-Silent bus_ata dsk = Silent-pure out _
  show_banner-Silent bus_scsi dsk = Silent-pure out _

  query-Silent :
      (k : Kernel W) (b : BusType) (dsk : Disk)
      → ServedOn b dsk
      → Silent out (query k (flags_of (for_scripts o)) b dsk)
  unfolding query bus_get_temperature
  query-Silent k error dsk h = Silent-pure out _
  query-Silent k bus_unknown dsk h = absurd h
  query-Silent k bus_sata dsk h = sata_get_temperature-Silent out k o.wakeup dsk h.1
  query-Silent k bus_ata dsk h = ata_get_temperature-Silent out k o.wakeup dsk h.1
  query-Silent k bus_scsi dsk h = scsi_get_temperature-Silent out k dsk

  display_temperature-line :
      (k : Kernel W) (dsk : Disk)
      → IsServed dsk
      → Ensures (Says out) (display_temperature k (for_scripts o) dsk) (λ d s.
        (ret : GetTemp) × (HasGiven k o out dsk ret d × (s.stdout ≡ out ++ line_of o ret d)))
  unfolding display_temperature
  display_temperature-line k dsk h = Ensures-bind (show_banner-Silent dsk.bus dsk) λ _.
      Ensures-bind
        (Ensures-run (
          Ensures-both
            (Ensures-from (query-Answered k (flags_of (for_scripts o)) dsk.bus dsk refl h))
            (query-Silent k dsk.bus dsk h)))
        λ r. record {
          at = λ s a.
              (Ensures-weaken (show_outcome-Shows r.0 r.1 a.0.0.shown)
                  (λ d s' q. (r.0, rw q.0 ((a.1.0, s, (a.1.1, a.1.2)), q.1)))).at
                s a.0.1;
        }

module _ {W : Type 0} (k : Kernel W) (o : Output) where
  display_all-lines :
      (disks : List Disk) (out : Bytes)
      → AllServed disks
      → Ensures
          (Says out)
          (display_all k (for_scripts o) disks)
          (λ ds s. (text : Bytes) × ((s.stdout ≡ out ++ text) × AreLines k o out disks ds text))
  unfolding display_all
  display_all-lines [] out h = Ensures-pure _ (λ s q. ([], (q ∙ sym (append-nil out), refl)))
  display_all-lines (d ∷ ds) out h = Ensures-bind (display_temperature-line out o k d h.0) λ d'.
      record {
        at = λ s a.
            let line : Bytes = line_of o a.0 d' in
            (Ensures-bind (display_all-lines ds (out ++ line) h.1) λ rest. Ensures-pure _ (λ s' z. (
              line ++ z.0,
              (z.1.0 ∙ append_assoc out line z.0, (a.0, z.0, (a.1.0, refl, z.1.1))),
            ))).at
              s a.1.1;
      }

  pub do_direct_mode-AreLines :
      (disks : List Disk) (s : Sys W)
      → AllServed disks
      → Post
          (λ ds s'.
            (text : Bytes) × ((s'.stdout ≡ s.stdout ++ text) × AreLines k o s.stdout disks ds text))
          (do_direct_mode k (for_scripts o) disks s)
  unfolding do_direct_mode
  do_direct_mode-AreLines disks s h =
      (Ensures-bind (display_all-lines disks s.stdout h)
          λ ds. Ensures-bind (Ensures-pure tt (λ s' q. q)) λ _. Ensures-pure _ (λ s' q. q)).at
        s refl
