-- ===== src/Logger/Files.antt =====
-- The variables of logger_run of src/logger.c with the backlog file, its two streams, and the answers of
-- the C library to the calls on them.
use genbuf.Prelude.{
  ℕ, suc, Bool, true, false, Option, none, some, List, [], ◌∷◌, ◌++◌, if◌then◌else◌, get_elem?,
}

-- A message is a text: the bytes before the NUL that ends it. fputs() writes no more than these. A line
-- of a source with a byte 0 in it has no newline as a text, and in the file the next line would join it;
-- the lines of the file here are whole ones.
abbrev pub Msg : Type 0
Msg = List ℕ

-- fputs and the fflush behind it: fputs may fail, and fflush may fail unseen.
pub data Puts : Type 0 where
  puts_ok puts_lost puts_eof : Puts

-- The answers of other code, each by the number of calls made before. `deliver` is deliver_message,
-- `none` where it does not return; `size` is the value of the semaphore; `at_eof` is what getline
-- leaves in a NULL pointer where it returns -1.
pub record Calls (H : Type 0) : Type 0 where
  pub deliver : ℕ → H → Msg → Option (Bool × H)
  pub size : ℕ → ℕ
  pub fopen_read : ℕ → Bool
  pub fopen_append : ℕ → Bool
  pub fputs : ℕ → Puts
  pub read_fails : ℕ → Bool
  pub at_eof : ℕ → Option Msg
  pub truncate : ℕ → Bool
  pub ferror : ℕ → Bool

-- The variables of logger_run and the file; `delivered` has the messages that were sent, in order.
pub record State (H : Type 0) : Type 0 where
  pub backlog_file : Option Msg
  pub dest : H
  pub queue : List (Option Msg)
  pub msg : Option Msg
  pub file : Option (List Msg)
  pub backlog_in : Option ℕ
  pub backlog_out : Bool
  pub delivered : List Msg
  pub clock : ℕ

-- `crashed` is a stream that is closed twice, or read though it is NULL; `stuck` is a delivery that
-- does not return; `running` is a run that goes on.
pub data Stop : Type 0 where
  ended waits crashed aborted stuck running : Stop

pub data Turn (H : Type 0) : Type 0 where
  goes : State H → Turn H
  stops : Stop → State H → Turn H

abbrev pub content : Option (List Msg) → List Msg
content none = []
content (some lines) = lines

abbrev pub empty_file : Option (List Msg) → Option (List Msg)
empty_file none = none
empty_file (some _) = some []

module _ {H : Type 0} where
  abbrev pub tick : State H → State H
  tick s = record s { clock = suc s.clock }

  abbrev pub append_line : State H → Msg → State H
  append_line s m = record s { file = some (content s.file ++ m ∷ []) }

  unfoldable pub take_next : State H → List (Option Msg) → Turn H
  take_next s [] = stops waits (record s { msg = none; queue = [] })
  take_next s (x ∷ q) = goes (record s { msg = x; queue = q })

  -- `msg = buffer->pop(buffer)`
  unfoldable pub pop_next : State H → Turn H
  pop_next s = take_next s s.queue

  -- fopen(backlog_file, "r"), which needs the file to exist
  unfoldable pub open_read : Calls H → State H → State H
  open_read c s = record s {
    backlog_in = elim s.file [
      | none ↦ none
      | some _ ↦ if c.fopen_read s.clock then some 0 else none
    ];
    clock = suc s.clock;
  }

  unfoldable pub opened_append : State H → Bool → State H
  opened_append s true = record s {
    backlog_out = true;
    file = some (content s.file);
    clock = suc s.clock;
  }
  opened_append s false = record s { backlog_out = false; clock = suc s.clock }

  -- fopen(backlog_file, "a"), which creates the file
  unfoldable pub open_append : Calls H → State H → State H
  open_append c s = opened_append s (c.fopen_append s.clock)

  unfoldable pub at_line : Calls H → State H → ℕ → Option Msg → State H × Bool
  at_line c s p none = (record s { msg = c.at_eof s.clock; clock = suc s.clock }, false)
  at_line c s p (some m) =
      (record s { msg = some m; backlog_in = some (suc p); clock = suc s.clock }, true)

  -- getline on backlog_in at a place; `false` is -1
  unfoldable pub read_line : Calls H → State H → ℕ → State H × Bool
  read_line c s p =
      at_line c s p (if c.read_fails s.clock then none else get_elem? (content s.file) p)

  -- both streams are closed and the file is truncated
  unfoldable pub truncate_backlog : Calls H → State H → State H
  truncate_backlog c s = record s {
    backlog_in = none;
    backlog_out = false;
    file = if c.truncate s.clock then empty_file s.file else s.file;
    clock = suc s.clock;
  }
