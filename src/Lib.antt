-- ===== src/Lib.antt =====
-- hddtemp shows the temperature of hard drives: it finds the drives of its command line, asks each over its
-- bus (ATA, SATA or SCSI), and prints the answers, or serves them over TCP and logs them as a daemon.
--
-- Which file models which part (paths of the source from the repository's root):
--   Prelude, Printf      shared: numbers, tests, lists, integers; `%d` and `%5d`
--   Db                   src/db.c: the entries; Db/Memory the reads through a pointer, Db/Line `parse_db_line`,
--                        Db/Load `load_database`, Db/Free `free_database`, Db/Lookup `is_a_supported_drive` and
--                        the table of -b
--   FixString            `scsi_fixstring` of src/scsicmds.c and `sata_fixstring` of src/satacmds.c
--   Smart                the attribute table of src/atacmds.c, src/ata.c and src/sata.c
--   Device               src/hddtemp.h: `struct disk`, the kernel and the state that the drivers change;
--                        Device/Ensures, Device/Log, Device/Kept and Device/Silent the rules for actions on it,
--                        Device/Heard a kernel that remembers its replies
--   AtaCmds, Ata         src/atacmds.c and src/ata.c
--   SataCmds, Sata       src/satacmds.c and src/sata.c
--   ScsiCmds, Scsi       src/scsicmds.c and src/scsi.c
--   Utf8                 src/utf8.c: the degree sign in the charset of the locale
--   Backtrace            src/backtrace.c: the reports of the signal handlers
--   Units                `F_to_C`, `C_to_F`, `value_to_unit`, `get_unit`
--   Options              src/hddtemp.c: the options of `main` and the mode that it chooses
--   Collect              src/hddtemp.c: the loop of `main` that collects the disks; Collect/Rounds and Collect/Loop
--                        what its rounds do, Collect/Served, Collect/Order and Collect/Mute what follows
--   Hddtemp              src/hddtemp.c: probing, `display_temperature`, `do_direct_mode`; Hddtemp/Told where the
--                        temperatures come from, Hddtemp/Names and Hddtemp/Models where the models do
--   Daemon               src/daemon.c: Daemon/Sockets, Daemon/Loop and Daemon/Start its parts,
--                        Daemon/Trace and Daemon/Serves the loop as a relation of events and actions, Daemon/Texts,
--                        Daemon/Staying, Daemon/Logs, Daemon/Safe, Daemon/Fields, Daemon/Answers and
--                        Daemon/Live what it promises
--   Main                 src/hddtemp.c: `main` over its modes, with its texts; Main/Ends and Main/Script how it
--                        ends, Main/WellBehaved the same on a kernel and files that behave well,
--                        Main/Table the listing of the database
--   Tests                the theorems on concrete inputs
--
-- How the parts interact: `collect` parses the arguments, probes each drive with the three drivers, loads the
-- database once and looks the model up; `do_direct_mode` and the daemon ask each disk through
-- `bus_get_temperature`, which picks the driver by the disk's type, and show the value in `value_to_unit`.
-- `main` puts them together: the options choose a mode, the disks are collected, and the mode runs on them.
--
-- An action of the drivers is a function of a state: the world behind the kernel, `errno`, the flag
-- `SG_IO_supported` and what was printed. It gives its result and the next state, or nothing where the code reads
-- behind a buffer or through NULL. The kernel is a parameter that answers any call as it likes; so are
-- `open`, `read`, the POSIX regular expressions, `strtol`, `getopt_long`, the clock, `gmtime` and `mktime`.
--
-- Bounds and fuel: the outer loop of `load_database` has fuel, and one round for each byte of the file and one
-- more are enough; the inner loop has a round for each unread byte, and passes over a newline in each.
-- `convert_loop` has fuel too: a round for each byte of the text and one for its NUL are enough.
-- A 16-bit number keeps its wrap. The temperatures are integers, far inside the range of an `int`.
--
-- Not modelled: the messages of a failing `load_database`; the calls around the daemon that change nothing it
-- reads (`setsid`, `chdir`, `umask`, `openlog`); the name of the report's file in src/backtrace.c;
-- `getaddrinfo`, of which the addresses are a parameter; the gettext library in intl/, a copy of another
-- project's.
pub mod Prelude
pub mod Printf
pub mod FixString
pub mod Device
pub mod Smart
pub mod AtaCmds
pub mod Ata
pub mod ScsiCmds
pub mod Scsi
pub mod SataCmds
pub mod Sata
pub mod Db
pub mod Utf8
pub mod Backtrace
pub mod Units
pub mod Hddtemp
pub mod Collect
pub mod Options
pub mod Tests
pub mod Daemon
pub mod Main
