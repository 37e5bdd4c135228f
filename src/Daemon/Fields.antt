-- ===== src/Daemon/Fields.antt =====
-- src/daemon.c: a client that splits the reply at the separator reads the fields of every disk.
use hddtemp.Prelude.{
  ℕ, ◌+◌, zero, suc, get_elem?, false, Option, none, some, List, [], ◌∷◌, ◌++◌, ◌==◌, ◌≡◌, refl,
  sym, ap, ◌∙◌, Bytes, codes, arith,
}
use hddtemp.Prelude.Int.{ℤ, pos, negsuc}
use hddtemp.Printf.{show_nat, show_int, is_digit, IsDigits, IsDigits-show_nat}
use hddtemp.Db.{HarddriveEntry}
use hddtemp.Device.{
  Disk, GetTemp, gettemp_error, not_applicable, unknown, known, no_sensor, drive_sleep, Sys,
}
use hddtemp.Device.Ensures.{Post, Ensures, Ensures-both, Ensures-bind, Ensures-pure}
use hddtemp.Device.Kept.{IsSome, Any, Ensures-given}
use hddtemp.Units.{Scale, default_unit, celsius, fahrenheit, value_to_unit, get_unit}
use hddtemp.Hddtemp.{Output, deref}
use hddtemp.Hddtemp.Served.{Shown, value_to_unit-IsSome, get_unit-IsSome}
use hddtemp.Daemon.{msg_text, no_value, daemon_msg, send_all}
use hddtemp.Daemon.Reply.{HasNo, split_at, split_at-part}
use hddtemp.Daemon.Texts.{daemon_msg-Fits, write_msg-whole}
use hddtemp.Daemon.Safe.{AllReady}

-- The model that is sent.
abbrev pub model_text : Option Bytes → Bytes
model_text none = codes "???"
model_text (some model) = model

-- The third and the fourth field: the temperature in the unit asked for and that unit, or a word and
-- a star.
abbrev pub HasFields : Output → GetTemp → Disk → Bytes → ℕ → Type 0
HasFields o gettemp_error dsk field last = (field ≡ codes "ERR") × (last ≡ b'*')
HasFields o not_applicable dsk field last = (field ≡ codes "NA") × (last ≡ b'*')
HasFields o unknown dsk field last = (field ≡ codes "UNK") × (last ≡ b'*')
HasFields o known dsk field last =
    (value : ℤ) × (value_to_unit o.unit dsk ≡ some value)
    × (field ≡ show_int value)
    × (get_unit o.unit dsk ≡ some last)
HasFields o no_sensor dsk field last = (field ≡ codes "NOS") × (last ≡ b'*')
HasFields o drive_sleep dsk field last = (field ≡ codes "SLP") × (last ≡ b'*')

-- The fields of a reply: of each disk in turn an empty one, the drive, the model, the temperature and
-- the unit; and an empty one at the end.
abbrev pub AreFields : Output → List Disk → List Bytes → Type 0
AreFields o [] fields = fields ≡ [] ∷ []
AreFields o (d ∷ ds) fields =
    (field : Bytes) × (last : ℕ) × (rest : List Bytes) × ((fields
        ≡ [] ∷ d.drive ∷ model_text d.model ∷ field ∷ (last ∷ []) ∷ rest)
      × HasFields o d.ret d field last
      × AreFields o ds rest)

-- A separator that is in no temperature and no word of the program.
abbrev pub IsSeparator : ℕ → Type 0
IsSeparator sep = (is_digit sep ≡ false) × HasNo sep (codes "-*ANUKOSLPERCF")

abbrev UnitClear : ℕ → Option HarddriveEntry → Type 0
UnitClear sep none = Unit {0}
UnitClear sep (some e) = e.unit == sep ≡ false

-- It is in no drive, no model and no unit of the disks.
abbrev pub AllClear : ℕ → List Disk → Type 0
AllClear sep [] = Unit {0}
AllClear sep (d ∷ ds) =
    HasNo sep d.drive × HasNo sep (model_text d.model) × UnitClear sep d.db_entry × AllClear sep ds

digits-HasNo : (sep : ℕ) (s : Bytes) → is_digit sep ≡ false → IsDigits s → HasNo sep s
digits-HasNo sep [] h d = tt
digits-HasNo sep (c ∷ s) h d = (ground arith, digits-HasNo sep s h d.1)

show_int-HasNo : (sep : ℕ) (v : ℤ) → IsSeparator sep → HasNo sep (show_int v)
unfolding show_int
show_int-HasNo sep (pos n) h = digits-HasNo sep (show_nat n) h.0 (IsDigits-show_nat n)
show_int-HasNo sep (negsuc n) h =
    (h.1.0, digits-HasNo sep (show_nat (n + 1)) h.0 (IsDigits-show_nat (n + 1)))

-- A byte of the program's words is not the separator.
abbrev words : Bytes
words = codes "-*ANUKOSLPERCF"

HasNo-get :
    (sep : ℕ) (s : Bytes) (i c : ℕ) → HasNo sep s → get_elem? s i ≡ some c → c == sep ≡ false
HasNo-get sep [] i c h e = cc
HasNo-get sep (a ∷ s) zero c h e = ground arith
HasNo-get sep (a ∷ s) (suc i) c h e = HasNo-get sep s i c h.1 e

get_unit-clear :
    (scale : Scale) (dsk : Disk) (sep u : ℕ)
    → IsSeparator sep
    → UnitClear sep dsk.db_entry
    → get_unit scale dsk ≡ some u
    → u == sep ≡ false
unfolding get_unit
get_unit-clear celsius dsk sep u h c e = HasNo-get sep words 12 u h.1 e
get_unit-clear fahrenheit dsk sep u h c e = HasNo-get sep words 13 u h.1 e
get_unit-clear default_unit dsk sep u h c e = entry_unit dsk.db_entry c e
  where
    entry_unit :
        (o : Option HarddriveEntry)
        → UnitClear sep o
        → (elim o [ none ↦ none | some e ↦ some e.unit ]) ≡ some u
        → u == sep ≡ false
    entry_unit none c e = cc
    entry_unit (some entry) c e = ground arith

-- The text of a disk, with its fields.
abbrev HasText : Output → GetTemp → Disk → Bytes → Type 0
HasText o ret dsk text =
    (field : Bytes) × (last : ℕ) × ((text
        ≡ msg_text o.separator dsk.drive (model_text dsk.model) field last)
      × HasFields o ret dsk field last
      × HasNo o.separator field
      × (last == o.separator ≡ false))

module _ {W : Type 0} where
  deref-gives :
      {A : Type 0} (o : Option A) → IsSome o → Ensures {W = W} Any (deref o) (λ a s. o ≡ some a)
  deref-gives none i = absurd i
  deref-gives (some a) i = Ensures-pure a (λ s q. refl)

  module _ (o : Output) (sep : IsSeparator o.separator) where
    no_value-HasText :
        (ret : GetTemp) (dsk : Disk) (field : Bytes)
        → IsSome dsk.model
        → HasFields o ret dsk field b'*'
        → HasNo o.separator field
        → Ensures {W = W} Any (no_value o dsk field) (λ text s. HasText o ret dsk text)
    unfolding no_value
    no_value-HasText ret dsk field i f n = Ensures-bind (deref-gives dsk.model i) λ model.
        Ensures-given λ e. Ensures-pure _ (λ s q. (
          field,
          b'*',
          (
            ap (λ m. msg_text o.separator dsk.drive m field b'*') (sym (ap model_text e)),
            f,
            n,
            HasNo-get o.separator words 1 b'*' sep.1 refl,
          ),
        ))

    daemon_msg-HasText :
        (ret : GetTemp) (dsk : Disk)
        → Shown ret dsk
        → UnitClear o.separator dsk.db_entry
        → Ensures {W = W} Any (daemon_msg o ret dsk) (λ text s. HasText o ret dsk text)
    unfolding daemon_msg
    daemon_msg-HasText gettemp_error dsk h c = Ensures-pure _ (λ s q. (
      codes "ERR",
      b'*',
      (refl, (refl, refl), ground arith, HasNo-get o.separator words 1 b'*' sep.1 refl),
    ))
    daemon_msg-HasText not_applicable dsk h c =
        no_value-HasText not_applicable dsk (codes "NA") h.0 (refl, refl) (ground arith)
    daemon_msg-HasText unknown dsk h c =
        no_value-HasText unknown dsk (codes "UNK") h.0 (refl, refl) (ground arith)
    daemon_msg-HasText known dsk h c = Ensures-bind (deref-gives dsk.model h.0) λ model.
        Ensures-given λ e.
          Ensures-bind (deref-gives _ (value_to_unit-IsSome o.unit dsk h.1)) λ value.
            Ensures-given λ v. Ensures-bind (deref-gives _ (get_unit-IsSome o.unit dsk h.1)) λ unit.
              Ensures-given λ u. Ensures-pure _ (λ s q. (
                show_int value,
                unit,
                (
                  ap (λ m. msg_text o.separator dsk.drive m (show_int value) unit)
                      (sym (ap model_text e)),
                  (value, v, refl, u),
                  show_int-HasNo o.separator value sep,
                  get_unit-clear o.unit dsk o.separator unit sep c u,
                ),
              ))
    daemon_msg-HasText no_sensor dsk h c =
        no_value-HasText no_sensor dsk (codes "NOS") h.0 (refl, refl) (ground arith)
    daemon_msg-HasText drive_sleep dsk h c =
        no_value-HasText drive_sleep dsk (codes "SLP") h.0 (refl, refl) (ground arith)

    send_all-Fields :
        (disks : List Disk)
        → AllReady disks
        → AllClear o.separator disks
        → Ensures {W = W} Any
            (send_all o disks)
            (λ reply s. AreFields o disks (split_at o.separator reply))
    unfolding send_all
    send_all-Fields [] h c = Ensures-pure _ (λ s q. refl)
    send_all-Fields (d ∷ ds) h c =
        Ensures-bind
          (Ensures-both (daemon_msg-Fits o d.ret d h.0.shown h.0.small h.0.fits)
            (daemon_msg-HasText d.ret d h.0.shown c.2))
          λ text. Ensures-given λ (fits, (field, last, (e, f, n, l))).
            Ensures-bind (write_msg-whole o.separator text fits.0) λ reply. Ensures-given λ w.
              Ensures-bind (send_all-Fields ds h.1 c.3) λ rest. Ensures-given λ i.
                Ensures-pure _ (λ s q. (
                  field,
                  last,
                  split_at o.separator rest,
                  (
                    ap (λ r. split_at o.separator (r ++ rest))
                          (w ∙ ap (λ t. o.separator ∷ (t ++ o.separator ∷ [])) e)
                        ∙ split_at-part o.separator d.drive (model_text d.model) field last rest c.0
                            c.1 n l,
                    f,
                    i,
                  ),
                ))

  -- On disks that the daemon can send, with a value that is -1 or a byte and a drive and model of at most 120
  -- bytes together, and with a separator that is no digit, in no word of the program, and in no drive,
  -- model or unit of the disks: the whole reply is written, and a client that splits it at the separator
  -- reads of each disk in turn an empty field, the drive, the model or "???", and then, if the
  -- temperature is known, its number in the unit asked for and that unit, or else a word for the result and a
  -- star; and one empty field at the end.
  pub send_all-AreFields :
      (o : Output) (disks : List Disk) (s : Sys W)
      → IsSeparator o.separator
      → AllReady disks
      → AllClear o.separator disks
      → Post (λ reply s'. AreFields o disks (split_at o.separator reply)) (send_all o disks s)
  send_all-AreFields o disks s sep h c = (send_all-Fields o sep disks h c).at s tt
