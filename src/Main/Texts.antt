-- ===== src/Main/Texts.antt =====
-- src/hddtemp.c: the texts that `main` prints, in the source's words.
use hddtemp.Prelude.{◌∷◌, ◌++◌, List, [], Bytes, codes}
use hddtemp.Prelude.Int.{pos}
use hddtemp.Printf.{show_int}

joined : List Bytes → Bytes
joined [] = []
joined (l ∷ ls) = l ++ joined ls

-- The help, with `PORT_NUMBER`.
unfoldable pub usage : Bytes
unfolding joined
usage = joined (
    codes " Usage: hddtemp [OPTIONS] [TYPE:]DISK1 [[TYPE:]DISK2]...\n"
    ∷ codes "\n"
    ∷ codes "   hddtemp displays the temperature of drives supplied in argument.\n"
    ∷ codes "   Drives must support S.M.A.R.T.\n"
    ∷ codes "\n"
    ∷ codes "  TYPE could be SATA, PATA or SCSI. If omitted hddtemp will try to guess.\n"
    ∷ codes "\n"
    ∷ codes "  -b   --drivebase   :  display database file content that allow hddtemp to\n"
    ∷ codes "                        recognize supported drives.\n"
    ∷ codes "  -D   --debug       :  display various S.M.A.R.T. fields and their values.\n"
    ∷ codes "                        Useful to find a value that seems to match the\n"
    ∷ codes "                        temperature and/or to send me a report.\n"
    ∷ codes "                        (done for every drive supplied).\n"
    ∷ (codes "  -d   --daemon      :  run hddtemp in TCP/IP daemon mode (port "
        ++ show_int (pos 7634)
        ++ codes " by default.)\n")
    ∷ codes "  -f   --file=FILE   :  specify database file to use.\n"
    ∷ codes "  -F   --foreground  :  don't daemonize, stay in foreground.\n"
    ∷ codes "  -l   --listen=addr :  listen on a specific interface (in TCP/IP daemon mode).\n"
    ∷ codes "  -n   --numeric     :  print only the temperature.\n"
    ∷ codes "  -p   --port=#      :  port to listen to (in TCP/IP daemon mode).\n"
    ∷ codes "  -s   --separator=C :  separator to use between fields (in TCP/IP daemon mode).\n"
    ∷ codes "  -S   --syslog=s    :  log temperature to syslog every s seconds.\n"
    ∷ codes "  -u   --unit=[C|F]  :  force output temperature either in Celsius or Fahrenheit.\n"
    ∷ codes "  -q   --quiet       :  do not check if the drive is supported.\n"
    ∷ codes "  -v   --version     :  display hddtemp version number.\n"
    ∷ codes "  -w   --wake-up     :  wake-up the drive if need.\n"
    ∷ codes "  -4                 :  listen on IPv4 sockets only.\n"
    ∷ codes "  -6                 :  listen on IPv6 sockets only.\n"
    ∷ codes "\n"
    ∷ codes "Report bugs or new drives to <hddtemp@guzu.net>.\n"
    ∷ [])

unfoldable pub version_text : Bytes → Bytes
version_text version = codes "hddtemp version " ++ version ++ codes "\n"

abbrev pub separator_text : Bytes
separator_text = codes "ERROR: invalid separator.\n"

abbrev pub port_text : Bytes
port_text = codes "ERROR: invalid port number.\n"

abbrev pub interval_text : Bytes
interval_text = codes "ERROR: invalid interval.\n"

abbrev pub arguments_text : Bytes
arguments_text = codes "Too few arguments: you must specify one drive, at least.\n"

abbrev pub debug_text : Bytes
debug_text = codes "ERROR: can't use --debug and --daemon or --syslog options together.\n"
