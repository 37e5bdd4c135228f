-- ===== src/Tests/Program.antt =====
-- The program's modes on a small kernel.
use hddtemp.Prelude.{ℕ, ◌≢◌, false, none, some, [], ◌∷◌, ◌≡◌, refl, inl, codes, arith}
use hddtemp.Prelude.Int.{ℤ}
use hddtemp.Device.{bus_sata, bus_scsi}
use hddtemp.Device.Ensures.{Post}
use hddtemp.Units.{celsius, value_to_unit, get_unit}
use hddtemp.Units.Scales.{IsNear, value_to_unit-IsNear}
use hddtemp.Hddtemp.{do_direct_mode}
use hddtemp.Hddtemp.Served.{AllSame, do_direct_mode-AllSame}
use hddtemp.Collect.{Collecting, collect, parse_argument}
use hddtemp.Collect.Served.{RoundServed, collect-AllServed}
use hddtemp.Collect.Names.{parse_argument-bus_name, parse_argument-one_byte}
use hddtemp.Daemon.{daemon_syslog}
use hddtemp.Daemon.Served.{daemon_syslog-AllSame}
use hddtemp.Daemon.Logs.{AllShown, IsLog}
use hddtemp.Daemon.Sockets.{
  daemon_open_sockets, opened_all, sockets_of, daemon_open_sockets-sockets_of,
}
use hddtemp.Options.{initial, parse_options}
use hddtemp.Options.Valid.{ParsedValid, parse_options-IsValid}
use hddtemp.Tests.World.{
  output, clock, address, number, open_any, compile, matches, read_none, empty_load, served_models,
}
use hddtemp.Tests.Kernel.{test_kernel, test_disk, test_entry, plain_state}

value_to_unit-IsNear_example :
    (w : ℤ) × (u : ℕ) × (value_to_unit celsius test_disk ≡ some w)
    × (get_unit celsius test_disk ≡ some u)
    × IsNear u w b'C' test_disk.value
value_to_unit-IsNear_example = value_to_unit-IsNear celsius test_disk test_entry refl (inl refl)

do_direct_mode-AllSame_example :
    Post
      (λ ds s'. AllSame (test_disk ∷ []) ds)
      (do_direct_mode test_kernel output (test_disk ∷ []) plain_state)
do_direct_mode-AllSame_example =
    do_direct_mode-AllSame test_kernel output (test_disk ∷ []) plain_state ((tt, tt), tt)

daemon_syslog-AllSame_example :
    Post
      (λ r s'. AllSame (test_disk ∷ []) r.0 × AllShown r.0 × IsLog r.0 r.1)
      (daemon_syslog test_kernel clock output (test_disk ∷ []) plain_state)
daemon_syslog-AllSame_example =
    daemon_syslog-AllSame test_kernel clock output (test_disk ∷ []) plain_state ((tt, tt), tt)

parse_argument-bus_name_example :
    parse_argument (b's' ∷ b'C' ∷ b's' ∷ b'i' ∷ b':' ∷ b'd' ∷ []) ≡ (bus_scsi, b'd' ∷ [])
parse_argument-bus_name_example =
    parse_argument-bus_name bus_scsi (b's' ∷ b'C' ∷ b's' ∷ b'i' ∷ []) (b'd' ∷ []) tt refl

x-other : ◌≢◌ {A = ℕ} b'x' b':'
x-other e = omega (arith, e)

parse_argument-one_byte_example : parse_argument (b'x' ∷ b':' ∷ b'd' ∷ []) ≡ (bus_sata, b'd' ∷ [])
parse_argument-one_byte_example = parse_argument-one_byte b'x' (b'd' ∷ []) x-other

daemon_open_sockets-sockets_of_example :
    daemon_open_sockets (address 4 ∷ address 5 ∷ [])
    ≡ opened_all (sockets_of (address 4 ∷ address 5 ∷ []))
daemon_open_sockets-sockets_of_example =
    daemon_open_sockets-sockets_of (address 4 ∷ address 5 ∷ []) (refl, (refl, tt))

parse_options-IsValid_example :
    ParsedValid (parse_options number ((b'p', b'8' ∷ b'0' ∷ []) ∷ []) (initial []))
parse_options-IsValid_example = parse_options-IsValid number ((b'p', b'8' ∷ b'0' ∷ []) ∷ []) []

abbrev start : Collecting
start = record { drives = none; disks = []; failed = false }

collect-AllServed_example :
    Post
      (λ round s'. RoundServed round)
      (collect test_kernel open_any compile matches read_none 5 []
        (some [])
        (codes "SATA:/dev/sda" ∷ [])
        start
        plain_state)
collect-AllServed_example =
    collect-AllServed test_kernel open_any compile matches read_none 5 [] (some []) empty_load
      served_models (codes "SATA:/dev/sda" ∷ []) start plain_state tt
