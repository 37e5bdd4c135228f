-- ===== src/Options.antt =====
-- src/hddtemp.c: the options of `main`, as `getopt_long` returns them.
pub mod Valid
use hddtemp.Prelude.{
  ℕ, ◌≤◌, Bool, true, false, not, ◌&&◌, ◌||◌, Option, none, some, List, [], ◌∷◌, ◌==◌, ltb,
  if◌then◌else◌, Bytes, get_or, codes,
}
use hddtemp.Prelude.Int.{ℤ, pos, negsuc}
use hddtemp.Units.{Scale, default_unit, celsius, fahrenheit}

-- `af_hint`
pub data Family : Type 0 where
  unspecified inet inet6 : Family

-- The option variables.
pub record Options : Type 0 where
  pub show_db : Bool
  pub debug : Bool
  pub numeric : Bool
  pub quiet : Bool
  pub wakeup : Bool
  pub af_hint : Family
  pub syslog_interval : ℤ
  pub foreground : Bool
  pub tcp_daemon : Bool
  pub unit : Scale
  pub portnum : ℤ
  pub listen_addr : Option Bytes
  pub separator : ℕ
  pub database_path : Bytes

-- Before the command line; the path is `DEFAULT_DATABASE_PATH`.
abbrev pub initial : Bytes → Options
initial path = record {
  show_db = false;
  debug = false;
  numeric = false;
  quiet = false;
  wakeup = false;
  af_hint = unspecified;
  syslog_interval = pos 0;
  foreground = false;
  tcp_daemon = false;
  unit = default_unit;
  portnum = pos 7634;
  listen_addr = none;
  separator = b'|';
  database_path = path;
}

-- A call of `strtol`: the number, whether `end` has moved, the text from `end` on, and whether `errno`
-- is then `ERANGE`.
pub record Number : Type 0 where
  pub value : ℤ
  pub moved : Bool
  pub rest : Bytes
  pub erange : Bool

-- How the parsing ends.
pub data Parsed : Type 0 where
  parsed : Options → Parsed
  -- exit(0) behind the version, and with the usage before it or not
  shows_version : Bool → Parsed
  -- exit(1)
  invalid_separator : Parsed
  invalid_port : Parsed
  invalid_interval : Parsed
  -- exit(1) for a code that is none of the options; `getopt_long` returns `?` for an option that it does not
  -- know, so that it gives no such code
  other_code : Parsed

-- `value < 1`
unfoldable pub below_one : ℤ → Bool
below_one (pos n) = ltb n 1
below_one (negsuc n) = true

-- `errno == ERANGE || end == optarg || *end != '\0' || value < 1`
unfoldable pub is_invalid : Number → Bool
unfolding below_one
is_invalid n = n.erange || not n.moved || not (get_or n.rest 0 0 == 0) || below_one n.value

abbrev pub scale_of : ℕ → Scale → Scale
scale_of c unit =
    if c == b'c' || c == b'C'
    then celsius
    else (if c == b'f' || c == b'F' then fahrenheit else unit)

module _ (strtol : Bytes → Number) where
  -- A round of the loop: the option's letter and its argument.
  unfoldable pub option_step : ℕ → Bytes → Options → Parsed
  unfolding is_invalid
  option_step c optarg o =
      if c == b'q'
      then parsed (record o { quiet = true })
      else if c == b'4'
      then parsed (record o { af_hint = inet })
      else if c == b'6'
      then parsed (record o { af_hint = inet6 })
      else if c == b'b'
      then parsed (record o { show_db = true })
      else if c == b'd'
      then parsed (record o { tcp_daemon = true })
      else if c == b'D'
      then parsed (record o { debug = true })
      else if c == b'f'
      then parsed (record o { database_path = optarg })
      else if c == b's'
      then (if get_or optarg 0 0 == 0
          then invalid_separator
          else parsed (record o { separator = get_or optarg 0 0 }))
      else if c == b'p'
      then (if is_invalid (strtol optarg)
          then invalid_port
          else parsed (record o { portnum = (strtol optarg).value }))
      else if c == b'u'
      then parsed (record o { unit = scale_of (get_or optarg 0 0) o.unit })
      else if c == b'l'
      then parsed (record o { listen_addr = some optarg })
      else if c == b'?' || c == b'h'
      then shows_version true
      else if c == b'v'
      then shows_version false
      else if c == b'n'
      then parsed (record o { numeric = true })
      else if c == b'w'
      then parsed (record o { wakeup = true })
      else if c == b'S'
      then (if is_invalid (strtol optarg)
          then invalid_interval
          else parsed (record o { syslog_interval = (strtol optarg).value }))
      else if c == b'F'
      then parsed (record o { foreground = true })
      else other_code

  unfoldable pub parse_rest : Parsed → (Options → Parsed) → Parsed
  parse_rest (parsed o) rest = rest o
  parse_rest p rest = p

  -- The loop, over what `getopt_long` returns up to its -1.
  unfoldable pub parse_options : List (ℕ × Bytes) → Options → Parsed
  unfolding option_step parse_rest
  parse_options [] o = parsed o
  parse_options ((c, optarg) ∷ args) o = parse_rest (option_step c optarg o) (parse_options args)

-- What `main` does behind the loop.
pub data Mode : Type 0 where
  -- -b
  database_mode : Mode
  -- exit(1)
  too_few_arguments : Mode
  debug_with_daemon : Mode
  daemon_mode : Options → Mode
  direct_mode : Options → Mode

-- `syslog_interval != 0`
abbrev pub logs : ℤ → Bool
logs (pos n) = not (n == 0)
logs (negsuc n) = true

-- With the number of drives on the command line.
unfoldable pub choose_mode : Options → ℕ → Mode
choose_mode o drives =
    if o.show_db
    then database_mode
    else if drives == 0
    then too_few_arguments
    else if o.debug && (o.tcp_daemon || logs o.syslog_interval)
    then debug_with_daemon
    else (let o' = record o { quiet = o.quiet || o.debug } in
        if o.tcp_daemon || logs o.syslog_interval then daemon_mode o' else direct_mode o')
