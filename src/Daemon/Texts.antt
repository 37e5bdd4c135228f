-- ===== src/Daemon/Texts.antt =====
-- The daemon's texts fit in `msg`.
use hddtemp.Prelude.{
  ap, ltb→lt, ℕ, zero, suc, ◌+◌, ◌/◌, ◌%◌, ◌^◌, ◌≤◌, ◌<◌, Option, none, some, [], ◌∷◌, ◌++◌, ◌≡◌,
  refl, ltb, Bytes, codes, length, take, arith, length-append,
}
use hddtemp.Prelude.Int.{ℤ, pos, negsuc}
use hddtemp.Printf.{show_nat, show_int, digits_onto}
use hddtemp.Db.{HarddriveEntry}
use hddtemp.Device.{
  Disk, GetTemp, gettemp_error, not_applicable, unknown, known, no_sensor, drive_sleep, Dev,
}
use hddtemp.Device.Ensures.{Ensures, Ensures-bind, Ensures-pure, Ensures-if}
use hddtemp.Device.Kept.{IsSome, Any, Ensures-given}
use hddtemp.Smart.Small.{IsSmall}
use hddtemp.Units.{
  Scale, default_unit, celsius, fahrenheit, f_to_c, c_to_f, entry_value, value_to_unit,
}
use hddtemp.Hddtemp.{Output, deref}
use hddtemp.Hddtemp.Served.{Shown, deref-Runs, value_to_unit-IsSome, get_unit-IsSome}
use hddtemp.Daemon.{msg_text, no_value, daemon_msg, write_msg}

length-digits_onto :
    (d fuel n : ℕ) (rest : Bytes)
    → n < 10 ^ suc d
    → length (digits_onto fuel n rest) ≤ suc d + length rest
unfolding digits_onto
length-digits_onto d zero n rest h = omega arith
length-digits_onto zero (suc fuel) n rest h = ground arith
length-digits_onto (suc d) (suc fuel) n rest h =
    ground (arith, length-digits_onto d fuel (n / 10) ((b'0' + n % 10) ∷ rest))

-- The numbers of at most three characters.
abbrev pub IsShort : ℤ → Type 0
IsShort (pos n) = n < 1000
IsShort (negsuc n) = n < 99

length-show_int : (v : ℤ) → IsShort v → length (show_int v) ≤ 3
unfolding show_int show_nat
length-show_int (pos n) h = omega (arith, length-digits_onto 2 (n + 1) n [] (omega arith))
length-show_int (negsuc n) h =
    omega (arith, length-digits_onto 1 (n + 1 + 1) (n + 1) [] (omega arith))

small-IsShort : (v : ℤ) → IsSmall v → IsShort v
small-IsShort (pos n) h = omega arith
small-IsShort (negsuc n) h = omega arith

entry_value-IsShort :
    (scale : Scale) (e : HarddriveEntry) (v : ℤ) → IsSmall v → IsShort (entry_value scale e v)
unfolding entry_value f_to_c c_to_f
entry_value-IsShort default_unit e v h = small-IsShort v h
entry_value-IsShort celsius e (pos n) h = ground arith
entry_value-IsShort celsius e (negsuc n) h = ground arith
entry_value-IsShort fahrenheit e (pos n) h = ground arith
entry_value-IsShort fahrenheit e (negsuc n) h = ground arith

abbrev IsShortIn : Option ℤ → Type 0
IsShortIn none = Unit {0}
IsShortIn (some v) = IsShort v

value_to_unit-IsShort :
    (scale : Scale) (dsk : Disk) → IsSmall dsk.value → IsShortIn (value_to_unit scale dsk)
unfolding value_to_unit
value_to_unit-IsShort default_unit dsk h = small-IsShort dsk.value h
value_to_unit-IsShort celsius dsk h =
    elim dsk.db_entry
      as (λ e.
        IsShortIn (elim e [ none ↦ none | some e ↦ some (entry_value celsius e dsk.value) ])) [
          | none ↦ tt
          | some e ↦ entry_value-IsShort celsius e dsk.value h
        ]
value_to_unit-IsShort fahrenheit dsk h =
    elim dsk.db_entry
      as (λ e.
        IsShortIn (elim e [ none ↦ none | some e ↦ some (entry_value fahrenheit e dsk.value) ])) [
          | none ↦ tt
          | some e ↦ entry_value-IsShort fahrenheit e dsk.value h
        ]

-- What `"%s"` shows of the model, `"???"` where there is none.
abbrev pub model_length : Option Bytes → ℕ
model_length none = 3
model_length (some model) = length model

-- The drive and the model leave room in `msg` for the rest of the text.
abbrev pub FitsMsg : Disk → Type 0
FitsMsg dsk = length dsk.drive + model_length dsk.model ≤ 120

length-msg_text :
    (sep : ℕ) (drive model field : Bytes) (last : ℕ)
    → length (msg_text sep drive model field last)
      ≡ length drive + (length model + (length field + 4))
unfolding msg_text
length-msg_text sep drive model field last = omega (
  arith,
  length-append drive (sep ∷ (model ++ sep ∷ (field ++ sep ∷ (last ∷ [])))),
  length-append model (sep ∷ (field ++ sep ∷ (last ∷ []))),
  length-append field (sep ∷ (last ∷ [])),
)

error_text-Fits :
    (sep : ℕ) (drive : Bytes) (o : Option Bytes)
    → length drive + model_length o ≤ 120
    → length
        (msg_text sep drive (elim o [ none ↦ codes "???" | some model ↦ model ]) (codes "ERR") b'*')
      ≤ 127
error_text-Fits sep drive none f =
    omega (arith, length-msg_text sep drive (codes "???") (codes "ERR") b'*')
error_text-Fits sep drive (some model) f =
    omega (arith, length-msg_text sep drive model (codes "ERR") b'*')

-- A text of the disk that `msg` holds whole: its drive and a separator come first.
abbrev pub IsText : ℕ → Disk → Bytes → Type 0
IsText sep dsk text = (length text ≤ 127) × ((more : Bytes) × (text ≡ dsk.drive ++ sep ∷ more))

msg_text-IsText :
    (sep : ℕ) (dsk : Disk) (model field : Bytes) (last : ℕ)
    → length (msg_text sep dsk.drive model field last) ≤ 127
    → IsText sep dsk (msg_text sep dsk.drive model field last)
unfolding msg_text
msg_text-IsText sep dsk model field last h =
    (h, (model ++ sep ∷ (field ++ sep ∷ (last ∷ [])), refl))

take-whole :
    (n : ℕ) (text pad : Bytes) → length text ≤ n → take (length text) (take n text ++ pad) ≡ text
take-whole n [] pad h = refl
take-whole zero (c ∷ text) pad h = absurd (omega arith)
take-whole (suc n) (c ∷ text) pad h = ap (c ∷◌) (take-whole n text pad (omega arith))

module _ {W : Type 0} where
  deref-Fits :
      (n : ℕ) (o : Option Bytes)
      → IsSome o
      → n + model_length o ≤ 120
      → Ensures {W = W} Any (deref o) (λ m s. n + length m ≤ 120)
  deref-Fits n none i h = absurd i
  deref-Fits n (some m) i h = Ensures-pure m (λ s q. h)

  deref-IsShort :
      (o : Option ℤ) → IsSome o → IsShortIn o → Ensures {W = W} Any (deref o) (λ v s. IsShort v)
  deref-IsShort none i h = absurd i
  deref-IsShort (some v) i h = Ensures-pure v (λ s q. h)

  abbrev Fits : Output → Disk → Dev W Bytes → Type 0
  Fits o dsk m = Ensures Any m (λ text s. IsText o.separator dsk text)

  no_value-Fits :
      (o : Output) (dsk : Disk) (field : Bytes)
      → IsSome dsk.model
      → FitsMsg dsk
      → length field ≤ 3
      → Fits o dsk (no_value o dsk field)
  unfolding no_value
  no_value-Fits o dsk field i f h =
      Ensures-bind (deref-Fits (length dsk.drive) dsk.model i f) λ model. Ensures-given λ e.
        Ensures-pure _ (λ s q.
          msg_text-IsText o.separator dsk model field b'*'
            (omega (arith, length-msg_text o.separator dsk.drive model field b'*')))

  pub daemon_msg-Fits :
      (o : Output) (ret : GetTemp) (dsk : Disk)
      → Shown ret dsk
      → IsSmall dsk.value
      → FitsMsg dsk
      → Fits o dsk (daemon_msg o ret dsk)
  unfolding daemon_msg
  daemon_msg-Fits o gettemp_error dsk h v f = Ensures-pure _ (λ s q.
      msg_text-IsText o.separator dsk _ (codes "ERR") b'*'
        (error_text-Fits o.separator dsk.drive dsk.model f))
  daemon_msg-Fits o not_applicable dsk h v f = no_value-Fits o dsk (codes "NA") h.0 f (omega arith)
  daemon_msg-Fits o unknown dsk h v f = no_value-Fits o dsk (codes "UNK") h.0 f (omega arith)
  daemon_msg-Fits o known dsk h v f =
      Ensures-bind (deref-Fits (length dsk.drive) dsk.model h.0 f) λ model. Ensures-given λ e.
        Ensures-bind
          (deref-IsShort _ (value_to_unit-IsSome o.unit dsk h.1)
            (value_to_unit-IsShort o.unit dsk v))
          λ value. Ensures-given λ i.
            Ensures-bind (deref-Runs _ (get_unit-IsSome o.unit dsk h.1)) λ unit.
              Ensures-pure _ (λ s q. msg_text-IsText o.separator dsk model (show_int value) unit (
                omega (
                  arith,
                  length-msg_text o.separator dsk.drive model (show_int value) unit,
                  length-show_int value i,
                )))
  daemon_msg-Fits o no_sensor dsk h v f = no_value-Fits o dsk (codes "NOS") h.0 f (omega arith)
  daemon_msg-Fits o drive_sleep dsk h v f = no_value-Fits o dsk (codes "SLP") h.0 f (omega arith)

  -- The client gets the text whole, between two separators.
  pub write_msg-whole :
      (sep : ℕ) (text : Bytes)
      → length text ≤ 127
      → Ensures {W = W} Any (write_msg sep text) (λ reply s. reply ≡ sep ∷ (text ++ sep ∷ []))
  unfolding write_msg
  write_msg-whole sep text h =
      Ensures-if (ltb 128 (length text)) (λ e. absurd (omega (arith, ltb→lt 128 (length text) e)))
        (λ _. Ensures-pure _ (λ s q. rw (take-whole 127 text (0 ∷ []) h) refl))
