-- ===== src/Main/Shutdown/Tests.antt =====
-- A run with one line that a signal ends before the reader has pushed it.
use genbuf.Prelude.{
  Bool, ℕ, ◌≡◌, ◌⊎◌, inr, ◌++◌, refl, true, false, none, some, List, [], ◌∷◌, arith,
}
use genbuf.Buffer.{Buffer, assign, block, null, init, push, push_grow, pop, pop_load, pop_shrink}
use genbuf.Buffer.Interleave
use genbuf.Buffer.Interleave.{
  System, Step, stores, posts, waits, loads, idle, taking, counted, store, load, keep_count,
  keep_popped,
}
use genbuf.Main.Shutdown.{
  Message, Threads, Moves, here, next, begin, cleaning, joining, finished, sighup, shuts_down,
  pushes, logs, signals, cancels, cleaned, joins, by_logger, has_mark,
}
use genbuf.Buffer.{assign}
use genbuf.Main.Shutdown.Ended.{Got, Moves-Ended}
use genbuf.Main.Shutdown.Progress.{CanMove, Moves-CanMove}

-- each delivery returns
abbrev back : List Message → Bool
back ms = true

abbrev lines : List (List ℕ)
lines = (97 ∷ []) ∷ []

-- the buffer with the mark in its first slot, which no sem_post has counted
abbrev marked : Buffer Message
marked = record {
  heap =
      assign (assign (λ p. none) 1 (some (block (λ i. none) null))) 1
        (some (block (assign (λ i. none) 0 (some none)) null));
  semaphore = 0;
  headindex = 0;
  endindex = 1;
  head = 1;
  current = 1;
}

abbrev with_mark : Threads
with_mark = record {
  system = record {
    buffer = counted marked 1;
    unpushed = [];
    posting = false;
    logging = idle;
    popped = [];
  };
  phase = joining;
  cancelled = true;
  dest = true;
}

abbrev stopped : Threads
stopped = record (begin 1 lines true) {
  system = record (begin 1 lines true).system { unpushed = none ∷ [] };
  phase = cleaning;
  cancelled = true;
}

stopped-Moves : Moves back (begin 1 lines true) stopped
unfolding shuts_down
stopped-Moves =
    next (next here (signals (begin 1 lines true) sighup refl))
      (cancels (record (begin 1 lines true) { cancelled = true }) refl refl refl)

abbrev stored : System Message
stored = record stopped.system { buffer = marked; unpushed = []; posting = true }

stopped-stored : Step stopped.system stored
unfolding Interleave.store push push_grow Interleave.keep_count init
stopped-stored =
    stores stopped.system 2 none [] marked refl refl
      (record { ne_null = omega arith; unused = refl }) refl

abbrev posted : System Message
posted = record stored { buffer = counted marked 1; posting = false }

with_mark-Moves : Moves back (begin 1 lines true) with_mark
unfolding by_logger stopped-stored
with_mark-Moves =
    next
      (next (next stopped-Moves (pushes stopped stored stopped-stored refl (inr refl)))
        (pushes (record stopped { system = stored }) posted (posts stored refl) refl (inr refl)))
      (cleaned (record stopped { system = posted }) refl refl refl)

-- the logger behind its sem_wait, and with the mark
abbrev waited : System Message
waited = record posted { buffer = marked; logging = taking }

abbrev emptied : System Message
emptied = record waited {
  buffer = record marked { headindex = 1 };
  logging = idle;
  popped = none ∷ [];
}

waited-emptied : Step waited emptied
unfolding load keep_popped pop pop_load pop_shrink
waited-emptied = loads waited none emptied.buffer refl refl

abbrev ended : Threads
ended = record with_mark { system = emptied; phase = finished }

ended-Moves : Moves back (begin 1 lines true) ended
unfolding by_logger has_mark waited-emptied
ended-Moves =
    next
      (next
        (next with_mark-Moves
          (logs with_mark waited (waits with_mark.system 0 refl refl) refl refl refl refl))
        (logs (record with_mark { system = waited }) emptied waited-emptied refl refl refl refl))
      (joins (record with_mark { system = emptied }) refl (inr refl))

Moves-Ended_example :
    (pre : List (List ℕ)) × (rest : List (List ℕ)) × (lines ≡ pre ++ rest)
    × ((true ≡ true) ⊎ (rest ≡ []))
    × Got true pre ended.system
Moves-Ended_example = Moves-Ended back 1 lines true (omega arith) ended-Moves refl

Moves-CanMove_example : (joining ≡ finished) ⊎ CanMove back with_mark
Moves-CanMove_example =
    Moves-CanMove back 1 2 lines true (λ ms. refl) (omega arith) with_mark-Moves
      (record { ne_null = omega arith; unused = refl })
