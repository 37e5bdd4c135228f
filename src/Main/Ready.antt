-- ===== src/Main/Ready.antt =====
-- src/hddtemp.c: the disks that `main` collects are ready for the daemon.
use mathlib.Core.Path.{subst}
use hddtemp.Prelude.{
  arith, ◌≤◌, Option, none, some, List, [], ◌∷◌, ◌≡◌, refl, sym, ap, inl, inr, Bytes, length,
}
use hddtemp.Device.{Disk}
use hddtemp.Hddtemp.Served.{AllServed, AllSame, Shown}
use hddtemp.Collect.{Collecting, next, backwards}
use hddtemp.Collect.Rounds.{Collected, IsModel, drive_of}
use hddtemp.Collect.Loop.{AddsAll}
use hddtemp.Collect.Order.{names}
use hddtemp.Daemon.Safe.{IsReady, AllReady}
use hddtemp.Daemon.Texts.{model_length}

-- Models of at most 40 bytes, as the drives' tables hold them.
abbrev pub IsShortModel : Bytes → Type 0
IsShortModel model = length model ≤ 40

-- Names of at most 80 bytes.
abbrev pub AllShort : List Bytes → Type 0
AllShort [] = Unit {0}
AllShort (arg ∷ args) = (length (drive_of arg) ≤ 80) × AllShort args

pub AllShort-backwards :
    (args acc : List Bytes) → AllShort args → AllShort acc → AllShort (backwards args acc)
AllShort-backwards [] acc h h' = h'
AllShort-backwards (arg ∷ args) acc h h' = AllShort-backwards args (arg ∷ acc) h.1 (h.0, h')

IsShortModel-length : (o : Option Bytes) → IsModel IsShortModel o → model_length o ≤ 40
IsShortModel-length none h = omega arith
IsShortModel-length (some model) h = h

Collected-IsReady :
    (drive : Bytes) (dsk : Disk)
    → length drive ≤ 80
    → Collected IsShortModel drive dsk
    → IsReady dsk
Collected-IsReady drive dsk n c = record {
  served = c.served;
  shown = subst (λ ret. Shown ret dsk) (sym c.unasked) tt;
  small = c.small;
  fits = omega (arith, ap length c.named, IsShortModel-length dsk.model c.is_model);
}

-- The collected disks are ready for the daemon.
pub AddsAll-AllReady :
    (args : List Bytes) (st st' : Collecting)
    → AllShort args
    → AllReady st.disks
    → AddsAll IsShortModel args st (next st')
    → AllReady st'.disks
AddsAll-AllReady [] st st' n h all = rw all h
AddsAll-AllReady (arg ∷ args) st st' n h (st₁, (inl (f, e), all)) =
    AddsAll-AllReady args st₁ st' n.1 (subst AllReady (sym e) h) all
AddsAll-AllReady (arg ∷ args) st st' n h (st₁, (inr (dsk, (c, e, f)), all)) =
    AddsAll-AllReady args st₁ st' n.1
      (subst AllReady (sym e) (Collected-IsReady (drive_of arg) dsk n.0 c, h)) all

pub AllReady-Served : (ds : List Disk) → AllReady ds → AllServed ds
AllReady-Served [] h = tt
AllReady-Served (d ∷ ds) h = (h.0.served, AllReady-Served ds h.1)

pub AllSame-Served : (ds ds' : List Disk) → AllSame ds ds' → AllServed ds'
AllSame-Served [] [] h = tt
AllSame-Served [] (d ∷ ds') h = absurd h
AllSame-Served (d ∷ ds) [] h = absurd h
AllSame-Served (d ∷ ds) (d' ∷ ds') h = (h.0.served, AllSame-Served ds ds' h.1)

pub AllSame-names : (ds ds' : List Disk) → AllSame ds ds' → names ds' ≡ names ds
AllSame-names [] [] h = refl
AllSame-names [] (d ∷ ds') h = absurd h
AllSame-names (d ∷ ds) [] h = absurd h
AllSame-names (d ∷ ds) (d' ∷ ds') h = rw (h.0.drive, AllSame-names ds ds' h.1) refl
