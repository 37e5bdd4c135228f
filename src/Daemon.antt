-- ===== src/Daemon.antt =====
-- src/daemon.c: the replies and the log of the daemon.
pub mod Sockets
pub mod Loop
pub mod Start
pub mod Served
pub mod Logs
pub mod Reply
pub mod Fields
pub mod Staying
pub mod Trace
pub mod Serves
pub mod Answers
pub mod Safe
pub mod Fresh
pub mod Live
pub mod Texts
use hddtemp.Prelude.{
  ℕ, ◌+◌, Bool, true, false, not, ◌&&◌, ◌||◌, Option, none, some, List, [], ◌∷◌, ◌++◌, ◌==◌, ltb,
  if◌then◌else◌, Bytes, codes, length, take,
}
use hddtemp.Prelude.Int.{negsuc}
use hddtemp.Printf.{show_int}
use hddtemp.Device.{
  BusType, error, Disk, GetTemp, gettemp_error, not_applicable, unknown, known, no_sensor,
  drive_sleep, Kernel, Dev, ◌>>=◌, ◌>>◌, pure, crash,
}
use hddtemp.Units.{value_to_unit, get_unit}
use hddtemp.Hddtemp.{Output, flags_of, deref, query}

-- `DELAY`
abbrev pub delay : ℕ
delay = 60

-- The levels of `syslog`.
pub data Level : Type 0 where
  log_info log_warning log_err : Level

module _ {W : Type 0} (k : Kernel W) (clock : W → ℕ × W) where
  -- `time(NULL)`, in seconds
  unfoldable pub time : Dev W ℕ
  time s = let (now, w) = clock s.world in some (now, record s { world = w })

  -- `nocache || (difftime(time(NULL), dsk->last_time) > DELAY)`
  unfoldable pub is_due : Bool → Disk → Dev W Bool
  unfolding time
  is_due true dsk = pure true
  is_due false dsk = do now ← time; pure (ltb (dsk.last_time + delay) now)

  -- A disk that is due.
  unfoldable pub ask : Output → Disk → Dev W Disk
  unfolding query time
  ask o dsk = do
    r ← query k (flags_of o) dsk.bus (record dsk { value = negsuc 0 })
    now ← time
    pure (record r.1 { ret = r.0; last_time = now })

  unfoldable pub update_disk : Output → Bool → Disk → Dev W Disk
  unfolding is_due ask
  update_disk o nocache dsk = do due ← is_due nocache dsk; if due then ask o dsk else pure dsk

  unfoldable pub daemon_update : Output → Bool → List Disk → Dev W (List Disk)
  unfolding update_disk
  daemon_update o nocache [] = pure []
  daemon_update o nocache (dsk ∷ ldisks) = do
    dsk' ← update_disk o nocache dsk
    rest ← daemon_update o nocache ldisks
    pure (dsk' ∷ rest)

-- The text of a drive: `"%s%c%s%c…%c%c"`, with `sep` between the four fields.
unfoldable pub msg_text : ℕ → Bytes → Bytes → Bytes → ℕ → Bytes
msg_text sep drive model field last = drive ++ sep ∷ (model ++ sep ∷ (field ++ sep ∷ (last ∷ [])))

module _ {W : Type 0} where
  -- Without a temperature.
  unfoldable pub no_value : Output → Disk → Bytes → Dev W Bytes
  unfolding msg_text
  no_value o dsk field = do
    model ← deref dsk.model
    pure (msg_text o.separator dsk.drive model field b'*')

  -- `n = snprintf(msg, …)`: the whole text, of which `msg` gets what fits.
  unfoldable pub daemon_msg : Output → GetTemp → Disk → Dev W Bytes
  unfolding no_value
  daemon_msg o not_applicable dsk = no_value o dsk (codes "NA")
  daemon_msg o unknown dsk = no_value o dsk (codes "UNK")
  daemon_msg o known dsk = do
    model ← deref dsk.model
    value ← deref (value_to_unit o.unit dsk)
    unit ← deref (get_unit o.unit dsk)
    pure (msg_text o.separator dsk.drive model (show_int value) unit)
  daemon_msg o no_sensor dsk = no_value o dsk (codes "NOS")
  daemon_msg o drive_sleep dsk = no_value o dsk (codes "SLP")
  daemon_msg o gettemp_error dsk = pure (
      msg_text o.separator dsk.drive (elim dsk.model [ none ↦ codes "???" | some model ↦ model ])
        (codes "ERR") b'*')

  -- The three calls of `write`: `msg` has 128 bytes, the last that `snprintf` fills is a NUL, and
  -- `write` is told the length of the whole text.
  unfoldable pub write_msg : ℕ → Bytes → Dev W Bytes
  write_msg sep text =
      if ltb 128 (length text)
      then crash
      else pure (sep ∷ (take (length text) (take 127 text ++ 0 ∷ []) ++ sep ∷ []))

  unfoldable pub send_all : Output → List Disk → Dev W Bytes
  unfolding daemon_msg write_msg
  send_all o [] = pure []
  send_all o (dsk ∷ ldisks) = do
    text ← daemon_msg o dsk.ret dsk
    reply ← write_msg o.separator text
    rest ← send_all o ldisks
    pure (reply ++ rest)

  -- A call of `syslog`.
  unfoldable pub log_line : Output → GetTemp → Disk → Dev W (Level × Bytes)
  log_line o known dsk = do
    model ← deref dsk.model
    value ← deref (value_to_unit o.unit dsk)
    unit ← deref (get_unit o.unit dsk)
    pure (
      log_info,
      dsk.drive ++ codes ": " ++ model ++ codes ": " ++ show_int value ++ b' ' ∷ unit ∷ [],
    )
  log_line o drive_sleep dsk = do
    model ← deref dsk.model
    pure (log_warning, dsk.drive ++ codes ": " ++ model ++ codes ": drive is sleeping")
  log_line o no_sensor dsk = do
    model ← deref dsk.model
    pure (log_warning, dsk.drive ++ codes ": " ++ model ++ codes ": no sensor")
  log_line o unknown dsk = do
    model ← deref dsk.model
    pure (log_warning, dsk.drive ++ codes ": " ++ model ++ codes ": no sensor")
  log_line o not_applicable dsk = do
    model ← deref dsk.model
    pure (log_err, dsk.drive ++ codes ": " ++ model ++ codes ": " ++ dsk.errormsg)
  log_line o gettemp_error dsk = pure (log_err, dsk.drive ++ codes ": " ++ dsk.errormsg)

  unfoldable pub log_all : Output → List Disk → Dev W (List (Level × Bytes))
  unfolding log_line
  log_all o [] = pure []
  log_all o (dsk ∷ ldisks) = do
    line ← log_line o dsk.ret dsk
    rest ← log_all o ldisks
    pure (line ∷ rest)

module _ {W : Type 0} (k : Kernel W) (clock : W → ℕ × W) where
  -- The disks as they are left, and the bytes that the client gets.
  unfoldable pub daemon_send_msg : Output → List Disk → Dev W (List Disk × Bytes)
  unfolding daemon_update send_all
  daemon_send_msg o ldisks = do
    disks ← daemon_update k clock o false ldisks
    reply ← send_all o disks
    pure (disks, reply)

  unfoldable pub daemon_syslog : Output → List Disk → Dev W (List Disk × List (Level × Bytes))
  unfolding daemon_update log_all
  daemon_syslog o ldisks = do
    disks ← daemon_update k clock o true ldisks
    lines ← log_all o disks
    pure (disks, lines)
