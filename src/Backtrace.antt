-- ===== src/Backtrace.antt =====
-- src/backtrace.c, on the i386: the handlers of the three signals and the report that they write.
pub mod Named
use hddtemp.Prelude.{
  ℕ, suc, ◌+◌, Bool, true, Option, none, some, List, [], ◌∷◌, ◌++◌, ◌==◌, if◌then◌else◌, Bytes,
  codes,
}
use hddtemp.Prelude.Int.{pos}
use hddtemp.Printf.{show_int}

-- The signals that have a handler, and the others.
pub data Signal : Type 0 where
  sigsegv sigill sigbus other_signal : Signal

-- What the handler is given: `si_code`, `si_addr` as `"%p"` shows it, and the instruction's address with
-- its `"0x%08x"`.
pub record Fault : Type 0 where
  pub si_code : ℕ
  pub si_addr : Bytes
  pub eip : ℕ
  pub eip_text : Bytes

-- The labels of a switch with `SIC_CASE`, with what each assigns.
abbrev pub Cases : Type 0
Cases = List (ℕ × Bytes)

abbrev pub segv_cases : Cases
segv_cases = (1, codes "SEGV_MAPERR") ∷ (2, codes "SEGV_ACCERR") ∷ []

abbrev pub ill_cases : Cases
ill_cases =
    (1, codes "ILL_ILLOPC")
    ∷ (2, codes "ILL_ILLOPN")
    ∷ (3, codes "ILL_ILLADR")
    ∷ (4, codes "ILL_ILLTRP")
    ∷ (5, codes "ILL_PRVOPC")
    ∷ (6, codes "ILL_PRVREG")
    ∷ (7, codes "ILL_COPROC")
    ∷ (8, codes "ILL_BADSTK")
    ∷ []

abbrev pub bus_cases : Cases
bus_cases = (1, codes "BUS_ADRALN") ∷ (2, codes "BUS_ADRERR") ∷ (3, codes "BUS_OBJERR") ∷ []

-- The assignments from a label on: `SIC_CASE` has no `break`.
unfoldable pub fall_through : Cases → Bytes → Bytes
fall_through [] strerr = strerr
fall_through ((code, name) ∷ cases) strerr = fall_through cases name

-- The switch on `si_code`; `strerr` is static and keeps what it had.
unfoldable pub sic_switch : ℕ → Cases → Bytes → Bytes
unfolding fall_through
sic_switch si_code [] strerr = strerr
sic_switch si_code ((code, name) ∷ cases) strerr =
    let rest = sic_switch si_code cases strerr in
    if si_code == code then fall_through cases name else rest

-- `" : invalid access to %p, in 0x%08x\n"` behind the name.
abbrev pub access_text : Fault → Bytes
access_text f =
    codes ") : invalid access to " ++ f.si_addr ++ codes ", in 0x" ++ f.eip_text ++ codes "\n"

-- The report's first line, and `strerr` as it is left; `pointer` is what `"%p"` makes of `strerr`.
unfoldable pub first_line : (Bytes → Bytes) → Signal → Fault → Bytes → Bytes × Bytes
unfolding sic_switch
first_line pointer sigsegv f strerr =
    let name = sic_switch f.si_code segv_cases strerr in
    (codes "=== SEGFAULT (" ++ name ++ access_text f, name)
first_line pointer sigill f strerr =
    let name = sic_switch f.si_code ill_cases strerr in
    (codes "=== ILLEGAL INSTR (" ++ name ++ access_text f, name)
first_line pointer sigbus f strerr =
    let name = sic_switch f.si_code bus_cases strerr in
    (codes "=== BUS ERROR (" ++ pointer name ++ access_text f, name)
first_line pointer other_signal f strerr = ([], strerr)

-- `btinfo[1] = (void*) puc->uc_mcontext.gregs[REG_EIP];`, of the addresses that `backtrace` gave.
unfoldable pub put_eip : ℕ → List ℕ → List ℕ
put_eip eip [] = []
put_eip eip (a ∷ []) = a ∷ []
put_eip eip (a ∷ b ∷ btinfo) = a ∷ eip ∷ btinfo

-- `"[%d] #%d: %s\n"`
abbrev pub frame_line : ℕ → ℕ → Bytes → Bytes
frame_line pid i message =
    b'['
    ∷ (show_int (pos pid) ++ codes "] #" ++ show_int (pos i) ++ codes ": " ++ message ++ codes "\n")

-- The loop over `messages`, from `i` on.
unfoldable pub frame_lines : ℕ → ℕ → List Bytes → Bytes
frame_lines pid i [] = []
frame_lines pid i (message ∷ messages) =
    frame_line pid i message ++ frame_lines pid (suc i) messages

abbrev pub tail : List Bytes → List Bytes
tail [] = []
tail (m ∷ messages) = messages

-- The report, if its file could be made (`opened`), and `strerr`; `backtrace_symbols` gives as many texts as
-- it is given addresses.
unfoldable pub backtrace_handler :
    (Bytes → Bytes)
    → (List ℕ → List Bytes)
    → Bool
    → ℕ
    → Signal
    → Fault
    → List ℕ
    → Bytes
    → Option Bytes × Bytes
unfolding first_line put_eip frame_lines
backtrace_handler pointer backtrace_symbols opened pid n f btinfo strerr =
    if opened
    then (let (line, strerr') = first_line pointer n f strerr in
        (
          some (line ++ frame_lines pid 1 (tail (backtrace_symbols (put_eip f.eip btinfo)))),
          strerr',
        ))
    else (none, strerr)

-- What `sigaction` is given: the signal, and those blocked while its handler runs. The handler is
-- `backtrace_handler`, for one signal (`SA_ONESHOT`).
pub record SignalAction : Type 0 where
  pub signal : Signal
  pub sa_mask : List Signal

abbrev pub backtrace_sigsegv : SignalAction
backtrace_sigsegv = record { signal = sigsegv; sa_mask = sigill ∷ sigbus ∷ [] }

abbrev pub backtrace_sigbus : SignalAction
backtrace_sigbus = record { signal = sigbus; sa_mask = sigill ∷ sigsegv ∷ [] }

abbrev pub backtrace_sigill : SignalAction
backtrace_sigill = record { signal = sigill; sa_mask = sigsegv ∷ sigbus ∷ [] }
