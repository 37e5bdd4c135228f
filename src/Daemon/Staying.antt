-- ===== src/Daemon/Staying.antt =====
-- The disks stay the daemon's disks from one round to the next.
use hddtemp.Prelude.{List, [], ◌∷◌, refl, ◌∙◌}
use hddtemp.Device.{Disk}
use hddtemp.Daemon.Safe.{AllReady, StaysReady, AllStay}

StaysReady-trans : (a b c : Disk) → StaysReady a b → StaysReady b c → StaysReady a c
StaysReady-trans a b c h h' = record {
  same = record {
    drive = h'.same.drive ∙ h.same.drive;
    model = h'.same.model ∙ h.same.model;
    bus = h'.same.bus ∙ h.same.bus;
    served = h'.same.served;
  };
  is_ready = h'.is_ready;
}

pub AllStay-trans : (xs ys zs : List Disk) → AllStay xs ys → AllStay ys zs → AllStay xs zs
AllStay-trans [] [] zs h h' = h'
AllStay-trans [] (b ∷ ys) zs h h' = absurd h
AllStay-trans (a ∷ xs) [] zs h h' = absurd h
AllStay-trans (a ∷ xs) (b ∷ ys) [] h h' = absurd h'
AllStay-trans (a ∷ xs) (b ∷ ys) (c ∷ zs) h h' =
    (StaysReady-trans a b c h.0 h'.0, AllStay-trans xs ys zs h.1 h'.1)

pub AllStay-refl : (ds : List Disk) → AllReady ds → AllStay ds ds
AllStay-refl [] h = tt
AllStay-refl (d ∷ ds) h = (
  record {
    same = record { drive = refl; model = refl; bus = refl; served = h.0.served };
    is_ready = h.0;
  },
  AllStay-refl ds h.1,
)
