-- ===== src/Hddtemp/Told.antt =====
-- src/hddtemp.c: the temperature of a query is in the drive's reply, on every bus.
use mathlib.Core.Path.{subst}
use hddtemp.Prelude.{false, Option, none, some, ◌≡◌, sym}
use hddtemp.Db.{HarddriveEntry}
use hddtemp.Device.{
  BusType, error, bus_unknown, bus_sata, bus_ata, bus_scsi, Disk, Flags, Request, Reply, Kernel,
  Sys,
}
use hddtemp.Device.Ensures.{Post, Ensures-pure}
use hddtemp.Device.Kept.{ServedOn, IsSome-some}
use hddtemp.Device.Heard.{HasSizes, World, heard, Tells, LeavesTold}
use hddtemp.Smart.Small.{HasBytes}
use hddtemp.Ata.Heard.{IsFromAta, ata_get_temperature-Told}
use hddtemp.Sata.Heard.{IsFromSata, sata_get_temperature-Told}
use hddtemp.Scsi.Heard.{IsFromScsi, scsi_get_temperature-Told}
use hddtemp.Ata.{ata_get_temperature}
use hddtemp.Sata.{sata_get_temperature}
use hddtemp.Hddtemp.{bus_get_temperature, query}

-- What holds with the entry, which is there.
abbrev WithEntry : Option HarddriveEntry → (HarddriveEntry → Type 0) → Type 0
WithEntry none P = ⊥
WithEntry (some e) P = P e

-- The value of the disk that a query leaves is the one in the reply to the command that reads it.
abbrev pub IsFrom : BusType → Disk → Disk → Request → Reply → Type 0
IsFrom error dsk dsk' q r = ⊥
IsFrom bus_unknown dsk dsk' q r = ⊥
IsFrom bus_sata dsk dsk' q r = WithEntry dsk.db_entry (λ e. IsFromSata dsk e dsk' q r)
IsFrom bus_ata dsk dsk' q r = WithEntry dsk.db_entry (λ e. IsFromAta dsk e dsk' q r)
IsFrom bus_scsi dsk dsk' q r = IsFromScsi dsk dsk' q r

module _ {W : Type 0} (k : Kernel W) (bytes : HasBytes k) (sizes : HasSizes k) (flags : Flags)
    (d : flags.debug ≡ false) where
  query-LeavesTold :
      (b : BusType) (dsk : Disk)
      → ServedOn b dsk
      → LeavesTold (IsFrom b dsk) (query (heard k) flags b dsk)
  unfolding query bus_get_temperature
  query-LeavesTold error dsk h = Ensures-pure _ (λ s q. tt)
  query-LeavesTold bus_unknown dsk h = absurd h
  query-LeavesTold bus_sata dsk h =
      let (e, q) = IsSome-some dsk.db_entry h.1 in
      subst
        (λ o.
          LeavesTold (λ d' p r. WithEntry o (λ e. IsFromSata dsk e d' p r))
            (sata_get_temperature (heard k) flags dsk))
        (sym q) (sata_get_temperature-Told k bytes sizes flags d dsk e q)
  query-LeavesTold bus_ata dsk h =
      let (e, q) = IsSome-some dsk.db_entry h.1 in
      subst
        (λ o.
          LeavesTold (λ d' p r. WithEntry o (λ e. IsFromAta dsk e d' p r))
            (ata_get_temperature (heard k) flags dsk))
        (sym q) (ata_get_temperature-Told k bytes sizes flags d dsk e q)
  query-LeavesTold bus_scsi dsk h = scsi_get_temperature-Told k sizes dsk

  -- On a kernel whose replies are bytes and as long as the buffers of the requests, outside debug mode, a
  -- query of a disk that can be served returns, and when a temperature has been read, the newest request is
  -- the one command that reads it, sent to the disk's descriptor, and its reply succeeded. On ATA the
  -- command is SMART READ VALUES, and on SATA the same behind ATA PASS-THROUGH (16), with the sense of a
  -- SATA drive: the value left is the lowest raw byte of the first of the table's thirty attributes
  -- with the number in the entry, or, if there is none, the value from before. On SCSI it is LOG SENSE of
  -- the temperature page, by either call: the value left is the page's tenth byte.
  pub query-Told :
      (b : BusType) (dsk : Disk) (s : Sys (World W))
      → ServedOn b dsk
      → Post (Tells (IsFrom b dsk)) (query (heard k) flags b dsk s)
  query-Told b dsk s h = (query-LeavesTold b dsk h).at s tt
