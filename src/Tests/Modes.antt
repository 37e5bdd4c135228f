-- ===== src/Tests/Modes.antt =====
-- The whole program, its daemon and what it asks of SCSI drives, on a small kernel.
use hddtemp.Prelude.{◌≢◌, refl, inr, true, false, none, some, List, [], ◌∷◌, Bytes, codes, arith}
use hddtemp.Db.Free.{Has, free_database, free_database-Has}
use hddtemp.Daemon.{update_disk}
use hddtemp.Daemon.Fresh.{IsUpdate, update_disk-IsUpdate}
use hddtemp.Device.{bus_ata, untried, Disk, known}
use hddtemp.Prelude.Int.{pos}
use hddtemp.Device.Ensures.{Post}
use hddtemp.Device.Log.{logged}
use hddtemp.Smart.Small.{LeavesSmall}
use hddtemp.Scsi.{scsi_get_temperature}
use hddtemp.Scsi.Support.{History}
use hddtemp.Scsi.History.{scsi_get_temperature-History}
use hddtemp.Scsi.Outcome.{ScsiFate, scsi_get_temperature-ScsiFate}
use hddtemp.Hddtemp.{flags_of, query}
use hddtemp.Collect.{collect, backwards}
use hddtemp.Collect.Order.{IsComplete, collect-IsComplete}
use hddtemp.Daemon.{daemon_send_msg, send_all}
use hddtemp.Daemon.Safe.{
  IsReady, AllReady, AllStay, IsReply, query-IsSmall, daemon_send_msg-IsReply,
}
use hddtemp.Daemon.Loop.{Service, Running, daemon_loop}
use hddtemp.Daemon.Start.{do_daemon_mode}
use hddtemp.Daemon.Reply.{split_at}
use hddtemp.Daemon.Fields.{AreFields, send_all-AreFields}
use hddtemp.Daemon.Trace.{Serves}
use hddtemp.Daemon.Serves.{daemon_loop-Serves}
use hddtemp.Daemon.Answers.{Answers, clients, daemon_loop-Answers}
use hddtemp.Daemon.Live.{HasServed, do_daemon_mode-HasServed}
use hddtemp.Tests.Kernel.{test_kernel, test_disk, test_state, plain_state}
use hddtemp.Tests.World.{
  output, clock, address, open_any, compile, matches, read_none, system, empty_load, served_models,
  test_kernel-HasBytes,
}

scsi_get_temperature-History_example :
    Post
      (λ r s'. History untried s'.sg_support s'.world.1 × (s'.sg_support ≢ untried))
      (scsi_get_temperature (logged test_kernel) test_disk test_state)
scsi_get_temperature-History_example =
    scsi_get_temperature-History test_kernel test_disk test_state refl

scsi_get_temperature-ScsiFate_example :
    Post (λ r s'. ScsiFate test_disk r) (scsi_get_temperature test_kernel test_disk plain_state)
scsi_get_temperature-ScsiFate_example =
    scsi_get_temperature-ScsiFate test_kernel test_disk plain_state

test_disk-IsReady : IsReady test_disk
test_disk-IsReady = record { served = (tt, tt); shown = tt; small = refl; fits = omega arith }

two_disks : AllReady (test_disk ∷ test_disk ∷ [])
two_disks = (test_disk-IsReady, (test_disk-IsReady, tt))

query-IsSmall_example : LeavesSmall (query test_kernel (flags_of output) bus_ata test_disk)
query-IsSmall_example =
    query-IsSmall test_kernel test_kernel-HasBytes (flags_of output) bus_ata test_disk (tt, tt) refl

-- A disk of 35 degrees.
abbrev warm_disk : Disk
warm_disk = record test_disk { value = pos 35; ret = known }

warm_disk-IsReady : IsReady warm_disk
warm_disk-IsReady = record {
  served = (tt, tt);
  shown = (tt, tt);
  small = omega arith;
  fits = omega arith;
}

send_all-AreFields_example :
    Post
      (λ reply s'. AreFields output (warm_disk ∷ test_disk ∷ []) (split_at b'|' reply))
      (send_all output (warm_disk ∷ test_disk ∷ []) plain_state)
send_all-AreFields_example =
    send_all-AreFields output (warm_disk ∷ test_disk ∷ []) plain_state (ground arith)
      (warm_disk-IsReady, (test_disk-IsReady, tt)) (ground arith)

daemon_send_msg-IsReply_example :
    Post
      (λ r s'. AllStay (test_disk ∷ test_disk ∷ []) r.0 × IsReply b'|' r.0 r.1)
      (daemon_send_msg test_kernel clock output (test_disk ∷ test_disk ∷ []) plain_state)
daemon_send_msg-IsReply_example =
    daemon_send_msg-IsReply test_kernel test_kernel-HasBytes clock output
      (test_disk ∷ test_disk ∷ []) plain_state two_disks

abbrev service : Service
service = record { tcp_daemon = true; syslog_interval = 60 }

abbrev running : Running
running = record { disks = test_disk ∷ test_disk ∷ []; next_time = 0 }

daemon_loop-Answers_example :
    Post
      (λ r s'. Answers b'|' (test_disk ∷ test_disk ∷ []) (clients service system.events) r)
      (daemon_loop test_kernel clock service output running system.events plain_state)
daemon_loop-Answers_example =
    daemon_loop-Answers test_kernel test_kernel-HasBytes clock service output system.events running
      plain_state two_disks

daemon_loop-Serves_example :
    Post
      (λ r s'.
        AllStay (test_disk ∷ test_disk ∷ []) r.0.disks
        × Serves clock service b'|'
            (test_disk ∷ test_disk ∷ [])
            plain_state.world
            0
            system.events
            r.1)
      (daemon_loop test_kernel clock service output running system.events plain_state)
daemon_loop-Serves_example =
    daemon_loop-Serves test_kernel test_kernel-HasBytes clock service output system.events running
      plain_state two_disks

do_daemon_mode-HasServed_example :
    Post
      (λ e s'. HasServed clock service output system.events (test_disk ∷ test_disk ∷ []) (4 ∷ []) e)
      (do_daemon_mode test_kernel clock
        (λ now. now)
        service
        output
        false
        system
        (test_disk ∷ test_disk ∷ [])
        plain_state)
do_daemon_mode-HasServed_example =
    do_daemon_mode-HasServed test_kernel test_kernel-HasBytes clock (λ now. now) service output
      false system (test_disk ∷ test_disk ∷ []) (address 4 ∷ []) 4 [] plain_state (inr (refl, refl))
      refl refl (refl, tt) refl two_disks

abbrev drives : List Bytes
drives = codes "/dev/sda" ∷ codes "SATA:/dev/sdb" ∷ []

collect-IsComplete_example :
    Post
      (λ round s'. IsComplete drives round)
      (collect test_kernel open_any compile matches read_none 5 []
        (some [])
        (backwards drives [])
        (record { drives = none; disks = []; failed = false })
        plain_state)
collect-IsComplete_example =
    collect-IsComplete test_kernel open_any compile matches read_none 5 [] (some []) empty_load
      served_models drives none plain_state

update_disk-IsUpdate_example :
    Post
      (λ dsk' s'. IsUpdate test_kernel clock output 1000 test_disk plain_state dsk' s')
      (update_disk test_kernel clock output false test_disk plain_state)
update_disk-IsUpdate_example =
    update_disk-IsUpdate test_kernel clock output test_disk plain_state (tt, tt)

free_database-Has_example :
    Has
      (free_database
        (record { addr = 1; regexp = some 2; description = some 3 } ∷ [])
        (some (3 ∷ 9 ∷ 1 ∷ 2 ∷ [])))
      (9 ∷ [])
free_database-Has_example =
    free_database-Has (record { addr = 1; regexp = some 2; description = some 3 } ∷ [])
      (some (3 ∷ 9 ∷ 1 ∷ 2 ∷ [])) (9 ∷ []) (3 ∷ 9 ∷ 1 ∷ 2 ∷ [], (refl, λ b. omega arith))
