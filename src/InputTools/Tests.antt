-- ===== src/InputTools/Tests.antt =====
-- input_tools.c on a handler with a buffer of eight bytes, and its theorems there.
use genbuf.Prelude.{ℕ, ◌≡◌, refl, List, [], ◌∷◌, arith, length, some, replicate, length-replicate}
use genbuf.Sys.{failed, eagain}
use genbuf.InputBuffer.{InputBuffer}
use genbuf.InputBuffer.Shape.{Holds, flat}
use genbuf.InputBuffer.Line.{take_line}
use genbuf.InputTools.{
  CommonHandler, is_ready, is_err, Answer, returned, status_ok, common_read, init, max_msg_size,
}
use genbuf.InputTools.Assembler.{collecting, skipping, accept, feed, split_lines}
use genbuf.InputTools.Kept.{short}
use genbuf.InputTools.Refine.{Models, Reports, Delivers, read_refines}
use genbuf.InputTools.Stream.{answer, pump, pump-short}
use genbuf.InputTools.Faults.{Ends, read_total, lost_lines}

abbrev fresh : InputBuffer
fresh = record {
  start = 100;
  current = 100;
  border = 100;
  end = 108;
  available = 8;
  write = 8;
  mem = 0 ∷ 0 ∷ 0 ∷ 0 ∷ 0 ∷ 0 ∷ 0 ∷ 0 ∷ [];
}

abbrev ready : CommonHandler
ready = record { fd = 3; inbuf = fresh; state = is_ready }

-- a line of more than eight bytes is being skipped
abbrev purging : CommonHandler
purging = record { fd = 3; inbuf = fresh; state = is_err }

fresh-Holds : Holds fresh []
fresh-Holds = flat [] fresh.mem (record {
  layout = refl;
  border_at = refl;
  current_at = refl;
  end_at = refl;
  room = omega arith;
  free = refl;
  writable = refl;
})

ready-Models : Models 8 ready (collecting [])
unfolding take_line
ready-Models = (refl, fresh-Holds, refl, omega arith, refl)

purging-Models : Models 8 purging skipping
purging-Models = (refl, fresh-Holds, refl, refl)

-- a line, and part of the next
abbrev some_bytes : List ℕ
some_bytes = 1 ∷ 10 ∷ 2 ∷ []

some_bytes-Delivers : Delivers (answer 3 some_bytes) ready some_bytes
some_bytes-Delivers = record {
  ready = 3;
  reported = refl;
  some_ready = omega arith;
  result = refl;
  some_read = omega arith;
  within = omega arith;
}

read_refines_example :
    Reports 8 ready
      (collecting (2 ∷ []), (1 ∷ 10 ∷ []) ∷ [])
      (common_read (answer 3 some_bytes) ready)
unfolding feed accept
read_refines_example =
    read_refines 8 ready (collecting []) (answer 3 some_bytes) some_bytes (omega arith) ready-Models
      some_bytes-Delivers (λ e. omega arith)

abbrev again : Answer
again = record { fionread = some 4; read = λ n. failed eagain }

read_total_example : Ends 8 ready (common_read again ready)
read_total_example =
    read_total 8 ready (collecting []) again (omega arith) ready-Models (λ k xs e. absurd (cc))

-- the bytes that malloc returns, of any number
zeroes : (n : ℕ) → (xs : List ℕ) × (length xs ≡ n)
zeroes n = (replicate n 0, length-replicate n 0)

pump-short_example :
    (h : CommonHandler) × (pump (2 ∷ 1 ∷ 1 ∷ []) (init 3 4096 (zeroes max_msg_size).0) some_bytes
      ≡ some (h, short max_msg_size (split_lines some_bytes).0))
pump-short_example =
    pump-short 3 4096 (zeroes max_msg_size).0 (2 ∷ 1 ∷ 1 ∷ []) some_bytes (zeroes max_msg_size).1
      (omega arith) (omega arith)

-- the rest of a long line, of eight bytes
abbrev rest_of_line : List ℕ
rest_of_line = 1 ∷ 1 ∷ 1 ∷ 1 ∷ 1 ∷ 1 ∷ 1 ∷ 10 ∷ []

rest_of_line-Delivers : Delivers (answer 8 rest_of_line) purging rest_of_line
rest_of_line-Delivers = record {
  ready = 8;
  reported = refl;
  some_ready = omega arith;
  result = refl;
  some_read = omega arith;
  within = omega arith;
}

lost_lines_example :
    (h : CommonHandler) × (common_read (answer 8 rest_of_line) purging ≡ returned status_ok h [])
    × ((a : Answer) (chunk : List ℕ)
        → Delivers a h chunk
        → length chunk ≡ 8
        → (h' : CommonHandler) × (common_read a h ≡ returned status_ok h' []) × (h'.state ≡ is_err))
unfolding take_line
lost_lines_example =
    lost_lines 8 purging (answer 8 rest_of_line) rest_of_line (omega arith) purging-Models
      rest_of_line-Delivers refl refl
