-- ===== src/InputTools.antt =====
-- src/input_tools.c and input_tools.h: the handler of a source that is read from one descriptor.
-- One call of read() or ioctl() is a field of `Answer`, an argument. Each `Require` and `Fatal`
-- that fails is the outcome `aborted`, the end of the process.
pub mod Assembler
pub mod Kept
pub mod Drain
pub mod Refine
pub mod Stream
pub mod Faults
pub mod Cleanup
mod Tests
use genbuf.Prelude.{
  ℕ, zero, suc, ◌+◌, ◌-◌, Bool, true, false, not, Option, none, some, List, [], ◌∷◌, length, ltb,
  ◌==◌, if◌then◌else◌,
}
use genbuf.Sys.{Errno, eagain, eintr, ReadResult, failed, got}
use genbuf.InputBuffer.{InputBuffer, min_of, create, store, update, getline, purgeline}

pub data InputState : Type 0 where
  is_ready is_err is_eof : InputState

-- `struct input_handler` with its `struct ih_common_priv`
pub record CommonHandler : Type 0 where
  pub fd : ℕ
  pub inbuf : InputBuffer
  pub state : InputState

-- `fionread` is what ioctl() reports, `none` its failure; `read` is given the most bytes to read.
pub record Answer : Type 0 where
  pub fionread : Option ℕ
  pub read : ℕ → ReadResult

-- The results of the `read` member: 0, -1, and any other.
pub data Status : Type 0 where
  status_ok status_eof status_unknown : Status

-- `returned` has the lines that were reported to the reader, in order.
pub data Outcome : Type 0 where
  returned : Status → CommonHandler → List (List ℕ) → Outcome
  aborted : Outcome
  out_of_fuel : Outcome

abbrev pub max_msg_size : ℕ
max_msg_size = 1_000_000

unfoldable pub init : (fd address : ℕ) → (garbage : List ℕ) → CommonHandler
init fd address garbage = record {
  fd = fd;
  inbuf = create max_msg_size address garbage;
  state = is_ready;
}

-- the loop over `getline`
pub drain : ℕ → InputBuffer → Option (List (List ℕ) × InputBuffer)
drain zero b = none
drain (suc fuel) b = elim ((getline b).0) [
  | none ↦ some ([], (getline b).1)
  | some line ↦ elim (drain fuel (getline b).1) [
    | none ↦ none
    | some (lines, b') ↦ some (line ∷ lines, b')
  ]
]

-- Each line takes a byte at least, so that one round more than the size is enough.
abbrev pub fuel_for : InputBuffer → ℕ
fuel_for b = suc (b.end - b.start)

dead : CommonHandler → Outcome
dead h = returned status_eof (record h { state = is_eof }) []

-- the lines, and the purge of a buffer that has no room left
report_lines : CommonHandler → Outcome
report_lines h = elim (drain (fuel_for h.inbuf) h.inbuf) [
  | none ↦ out_of_fuel
  | some (lines, b) ↦
      if b.available == 0
      then (if (purgeline b).0
          then aborted
          else returned status_ok (record h { inbuf = (purgeline b).1; state = is_err }) lines)
      else returned status_ok (record h { inbuf = b }) lines
]

pub after_update : CommonHandler → Outcome
after_update h = elim h.state [
  | is_err ↦
      if (purgeline h.inbuf).0
      then report_lines (record h { inbuf = (purgeline h.inbuf).1; state = is_ready })
      else returned status_ok (record h { inbuf = (purgeline h.inbuf).1; state = is_err }) []
  | _ ↦ report_lines h
]

take_result : CommonHandler → ReadResult → Outcome
take_result h (failed eagain) = returned status_ok h []
take_result h (failed eintr) = returned status_ok h []
take_result h (failed _) = dead h
take_result h (got []) = dead h
take_result h (got (x ∷ xs)) =
    after_update (record h { inbuf = update (store h.inbuf (x ∷ xs)) (length (x ∷ xs)) })

read_open : Answer → CommonHandler → Outcome
read_open a h =
    if not (ltb 0 h.inbuf.write)
    then aborted
    else if not (ltb 0 h.inbuf.available)
    then aborted
    else elim a.fionread [
      | none ↦ dead h
      | some maxread ↦
          if maxread == 0 then dead h else take_result h (a.read (min_of h.inbuf.write maxread))
    ]

pub common_read : Answer → CommonHandler → Outcome
unfolding read_open take_result dead
common_read a h = elim h.state [ is_eof ↦ returned status_eof h [] | _ ↦ read_open a h ]
