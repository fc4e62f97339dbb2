-- ===== src/Logger.antt =====
-- src/logger.c and logger.h: the loop that takes messages from the queue, delivers them, and keeps
-- them in a backlog file while the destination fails.
-- `queue` is what the buffer holds and all that will be pushed to it, with NULL, the reader's mark
-- of the end, as `none`; a pop of an empty queue waits for ever. The backlog file is the list of its
-- lines, and a stream that reads it is its place there. free is not modelled.
pub mod Files
pub mod Order
pub mod Moved
pub mod Dest
pub mod Turns
pub mod Conserve
pub mod Start
pub mod Live
pub mod Delivery
pub mod Faults
mod Tests
use genbuf.Prelude.{
  ℕ, zero, suc, Bool, true, false, not, Option, none, some, List, [], ◌∷◌, ◌++◌, if◌then◌else◌,
  get_elem?,
}
pub use Files.{
  Msg, Puts, puts_ok, puts_lost, puts_eof, Calls, State, Stop, ended, waits, crashed, aborted,
  stuck, running, Turn, goes, stops, content, empty_file, tick, append_line,
}
unfoldable pub use Files.{
  take_next, pop_next, open_read, opened_append, open_append, at_line, read_line, truncate_backlog,
}

-- `struct logger`, without its buffer
pub record Logger (H : Type 0) : Type 0 where
  pub backlog_file : Option Msg
  pub dest : Option H

unfoldable pub init : {H : Type 0} → Logger H
init = record { backlog_file = none; dest = none }

-- A destination that is there already is fatal.
unfoldable pub set_destination : {H : Type 0} → Logger H → H → Option (Logger H)
set_destination l h = elim l.dest [ none ↦ some (record l { dest = some h }) | some _ ↦ none ]

module _ {H : Type 0} where
  unfoldable pub after_line : Calls H → State H × Bool → Turn H
  after_line c (s, true) = goes (record s { backlog_out = false })
  after_line c (s, false) = pop_next (truncate_backlog c s)

  unfoldable pub next_from : Calls H → State H → Option ℕ → Turn H
  next_from c s none = pop_next s
  next_from c s (some p) = after_line c (read_line c s p)

  -- the branch of a message that was sent
  unfoldable pub sent : Calls H → State H → Turn H
  sent c s = next_from c s s.backlog_in

-- The results of logger_write_backlog: 0, -2, -1, a pop that waits and a Require that fails.
pub data Wrote (H : Type 0) : Type 0 where
  wrote_all wrote_end wrote_failed wrote_waits wrote_aborts : State H → Wrote H

module _ {H : Type 0} where
  -- fclose(backlog_out): `backlog_out` says whether the stream is there and open
  abbrev pub close_out : State H → State H
  close_out s = record s { backlog_out = false }

  -- the loop over the queue, `n` rounds of it
  unfoldable pub write_loop : Calls H → ℕ → State H → Wrote H
  write_loop c zero s = wrote_all s
  write_loop c (suc n) s = elim s.queue [
    | [] ↦ wrote_waits s
    | x ∷ q ↦ elim x [
      | none ↦ wrote_end (close_out (record s { queue = q }))
      | some m ↦ elim (c.fputs s.clock) [
        | puts_ok ↦ write_loop c n (append_line (record s { queue = q; clock = suc s.clock }) m)
        | puts_lost ↦ write_loop c n (record s { queue = q; clock = suc s.clock })
        | puts_eof ↦ wrote_failed (record s { clock = suc s.clock })
      ]
    ]
  ]

  unfoldable pub write_open : Calls H → State H → Bool → Wrote H
  write_open c s true = write_loop c (c.size s.clock) (tick s)
  write_open c s false = wrote_aborts s

  -- logger_write_backlog, whose stream may not be NULL
  unfoldable pub write_backlog : Calls H → State H → Wrote H
  write_backlog c s = write_open c s s.backlog_out

  -- the end at -2: the stream is closed, and a stream that is closed already may not be
  unfoldable pub end_with : State H → Bool → Turn H
  end_with s true = stops ended (record (close_out s) { backlog_in = none })
  end_with s false = stops crashed s

  -- the switch behind logger_write_backlog
  unfoldable pub after_write : Calls H → (State H → Turn H) → Wrote H → Turn H
  after_write c next (wrote_all s) = next s
  after_write c next (wrote_end s) = end_with s s.backlog_out
  after_write c next (wrote_failed s) =
      next
        (if c.ferror s.clock then record s { backlog_out = false; clock = suc s.clock } else tick s)
  after_write c next (wrote_waits s) = stops waits s
  after_write c next (wrote_aborts s) = stops aborted s

  unfoldable pub retry : Calls H → State H → Turn H
  retry c s = after_write c goes (write_backlog c s)

  -- behind fopen: the branch is left where the file was opened
  unfoldable pub reopened : Calls H → State H → Bool → Turn H
  reopened c s true = goes s
  reopened c s false = retry c s

  unfoldable pub reopen : Calls H → State H → Option Msg → Turn H
  reopen c s none = goes s
  reopen c s (some path) = reopened c (open_append c s) (open_append c s).backlog_out

  unfoldable pub move_queue : Calls H → State H → Bool → Turn H
  move_queue c s true = retry c s
  move_queue c s false = reopen c s s.backlog_file

  -- the branch of a message that was not sent, with a backlog that is read
  unfoldable pub behind : Calls H → State H → Turn H
  behind c s = move_queue c s s.backlog_out

  unfoldable pub after_first : Calls H → State H × Bool → Turn H
  after_first c (s, true) = goes s
  after_first c (s, false) =
      goes
        (if c.ferror s.clock then record s { backlog_in = none; clock = suc s.clock } else tick s)

  unfoldable pub first_from : Calls H → State H → Option ℕ → Turn H
  first_from c s none = stops crashed s
  first_from c s (some p) = after_first c (read_line c s p)

  -- the first line of the new backlog
  unfoldable pub first_line : Calls H → State H → Turn H
  first_line c s = first_from c s s.backlog_in

  -- the current message is written, and the queue behind it
  unfoldable pub begin_backlog : Calls H → State H → Turn H
  begin_backlog c s = after_write c (first_line c) (write_backlog c (record s { msg = none }))

  unfoldable pub put_first : Calls H → Msg → State H → Puts → Turn H
  put_first c m s puts_ok = begin_backlog c (append_line s m)
  put_first c m s puts_lost = begin_backlog c s
  put_first c m s puts_eof = goes (record s { queue = some m ∷ s.queue })

  unfoldable pub put_open : Calls H → Msg → State H → Bool → Turn H
  put_open c m s true = put_first c m (tick s) (c.fputs s.clock)
  put_open c m s false = goes s

  unfoldable pub new_backlog : Calls H → Msg → State H → Option Msg → Turn H
  new_backlog c m s none = goes s
  new_backlog c m s (some path) =
      put_open c m (open_read c (open_append c s)) (open_append c s).backlog_out

  -- the branch of a message that was not sent, without a backlog
  unfoldable pub first_failure : Calls H → Msg → State H → Turn H
  first_failure c m s = new_backlog c m s s.backlog_file

  unfoldable pub failed_from : Calls H → Msg → State H → Option ℕ → Turn H
  failed_from c m s none = first_failure c m s
  failed_from c m s (some _) = behind c s

  unfoldable pub unsent : Calls H → Msg → State H → Turn H
  unsent c m s = failed_from c m s s.backlog_in

  -- free(msg) has no counterpart here: where the message is in the queue as well (`put_first`, where fputs
  -- fails), what the queue holds is freed memory behind a delivery, and a message like any other here.
  unfoldable pub on_delivery : Calls H → Msg → State H → Option (Bool × H) → Turn H
  on_delivery c m s none = stops stuck s
  on_delivery c m s (some (true, h)) =
      sent c
        (record s { dest = h; msg = none; delivered = s.delivered ++ m ∷ []; clock = suc s.clock })
  on_delivery c m s (some (false, h)) = unsent c m (record s { dest = h; clock = suc s.clock })

  unfoldable pub turn_with : Calls H → State H → Option Msg → Turn H
  turn_with c s none = stops ended s
  turn_with c s (some m) = on_delivery c m s (c.deliver s.clock s.dest m)

  -- a round of the loop
  unfoldable pub turn : Calls H → State H → Turn H
  turn c s = turn_with c s s.msg

  unfoldable pub run_loop : Calls H → ℕ → State H → Stop × State H
  run_loop c zero s = (running, s)
  run_loop c (suc rounds) s = elim (turn c s) [
    | goes s' ↦ run_loop c rounds s'
    | stops e s' ↦ (e, s')
  ]

  unfoldable pub old_line : State H × Bool → State H
  old_line (s, true) = s
  old_line (s, false) = record s { msg = none; backlog_in = none }

  unfoldable pub old_from : Calls H → State H → Option ℕ → State H
  old_from c s none = s
  old_from c s (some p) = old_line (read_line c s p)

  -- the old backlog and its first line, where there is one
  unfoldable pub old_backlog : Calls H → State H → Option Msg → State H
  old_backlog c s none = s
  old_backlog c s (some path) = old_from c (open_read c s) (open_read c s).backlog_in

  unfoldable pub first_with : State H → Option Msg → Turn H
  first_with s none = pop_next s
  first_with s (some _) = goes s

  unfoldable pub first_message : State H → Turn H
  first_message s = first_with s s.msg

  unfoldable pub after_start : Calls H → ℕ → Turn H → Stop × State H
  after_start c rounds (goes s) = run_loop c rounds s
  after_start c rounds (stops e s) = (e, s)

  abbrev pub initial : Option Msg → H → List (Option Msg) → Option (List Msg) → State H
  initial path h queue file = record {
    backlog_file = path;
    dest = h;
    queue = queue;
    msg = none;
    file = file;
    backlog_in = none;
    backlog_out = false;
    delivered = [];
    clock = 0;
  }

  -- logger_run with a destination; without one it returns at once
  unfoldable pub run :
      Calls H → ℕ → Logger H → List (Option Msg) → Option (List Msg) → Option (Stop × State H)
  run c rounds l queue file = elim l.dest [
    | none ↦ none
    | some h ↦ some (
        after_start c rounds
          (first_message (old_backlog c (initial l.backlog_file h queue file) l.backlog_file)))
  ]
