-- ===== src/Main/Shutdown.antt =====
-- The end of the program: signal_handler and run of src/main.c and the cleanup of src/reader.c, with the
-- steps that both threads take on the buffer. A signal may cancel the reader's thread between two of
-- its steps on the buffer, not inside of a push, which disables that from its lock to its sem_post.
-- The main thread joins the reader, pushes the mark of the end and joins the logger. The logger takes
-- what is in the buffer, where it has a destination, and ends at the mark; what it does with a message
-- between two of its steps on the buffer comes back or does not, as an argument says.
pub mod Steps
pub mod Safety
pub mod Ended
pub mod Progress
mod Tests
use genbuf.Prelude.{ℕ, ◌≡◌, ◌≢◌, ◌⊎◌, Bool, true, false, ◌||◌, Option, none, some, List, [], ◌∷◌}
use genbuf.Buffer.{Ptr}
use genbuf.Buffer.Interleave
use genbuf.Buffer.Interleave.{System, Step, stores, posts, waits, loads, restores, reposts}

-- what the program waits for: the end of the reader's thread, the push of the mark, the end of the
-- logger's thread, nothing
pub data Phase : Type 0 where
  reading cleaning joining finished : Phase

-- the signals that run gives to signal_handler
pub data Signal : Type 0 where
  sighup sigterm sigpipe : Signal

unfoldable pub shuts_down : Signal → Bool
shuts_down sighup = true
shuts_down sigterm = true
shuts_down sigpipe = false

abbrev pub Message : Type 0
Message = Option (List ℕ)

pub record Threads : Type 0 where
  pub system : System Message
  pub phase : Phase
  pub cancelled : Bool
  -- the logger has a destination; without one logger_run returns at once
  pub dest : Bool

-- the messages that report_data pushes, one call for each line
unfoldable pub reported : List (List ℕ) → List Message
reported [] = []
reported (line ∷ lines) = some line ∷ reported lines

-- The logger's thread has popped the mark of the end, NULL, and returns.
unfoldable pub has_mark : List Message → Bool
has_mark [] = false
has_mark (none ∷ ms) = true
has_mark (some line ∷ ms) = has_mark ms

-- a step of the logger's thread, and not of the one that pushes
unfoldable pub by_logger : {s t : System Message} → Step s t → Bool
by_logger (stores s fresh m ms b p q u e) = false
by_logger (posts s p) = false
by_logger (waits s n p e) = true
by_logger (loads s m b p e) = true
by_logger (restores s fresh m ms b p q u e) = true
by_logger (reposts s p) = true

-- `comes_back` says, of the messages that the logger has got so far, whether what it does with them, its
-- deliveries and its backlog, comes back to the buffer. Where it does not, the logger takes no more steps.
pub data Move (comes_back : List Message → Bool) : Threads → Threads → Type 0 where
  pushes :
      (p : Threads) (s : System Message) (step : Step p.system s)
      → by_logger step ≡ false
      → (p.phase ≡ reading) ⊎ (p.phase ≡ cleaning)
      → Move comes_back p (record p { system = s })
  logs :
      (p : Threads) (s : System Message) (step : Step p.system s)
      → by_logger step ≡ true
      → p.dest ≡ true
      → has_mark p.system.popped ≡ false
      → comes_back p.system.popped ≡ true
      → Move comes_back p (record p { system = s })
  signals :
      (p : Threads) (sig : Signal)
      → p.phase ≡ reading
      → Move comes_back p (record p { cancelled = p.cancelled || shuts_down sig })
  cancels :
      (p : Threads)
      → p.phase ≡ reading
      → p.cancelled ≡ true
      → p.system.posting ≡ false
      → Move comes_back p
          (record p { system = record p.system { unpushed = none ∷ [] }; phase = cleaning })
  returns :
      (p : Threads)
      → p.phase ≡ reading
      → p.system.posting ≡ false
      → p.system.unpushed ≡ []
      → Move comes_back p
          (record p { system = record p.system { unpushed = none ∷ [] }; phase = cleaning })
  cleaned :
      (p : Threads)
      → p.phase ≡ cleaning
      → p.system.posting ≡ false
      → p.system.unpushed ≡ []
      → Move comes_back p (record p { phase = joining })
  joins :
      (p : Threads)
      → p.phase ≡ joining
      → (p.dest ≡ false) ⊎ (has_mark p.system.popped ≡ true)
      → Move comes_back p (record p { phase = finished })

-- both threads are created, with the lines that the reader will report
abbrev pub begin : Ptr → List (List ℕ) → Bool → Threads
begin fresh lines dest = record {
  system = Interleave.begin fresh (reported lines);
  phase = reading;
  cancelled = false;
  dest = dest;
}

pub data Moves (comes_back : List Message → Bool) (p : Threads) : Threads → Type 0 where
  here : Moves comes_back p p
  next : {q r : Threads} → Moves comes_back p q → Move comes_back q r → Moves comes_back p r

-- a move that no signal makes or has asked for
unfoldable pub unforced :
    {comes_back : List Message → Bool} {p q : Threads} → Move comes_back p q → Bool
unforced (pushes p s step l r) = true
unforced (logs p s step l d h b) = true
unforced (signals p sig r) = false
unforced (cancels p r c q) = false
unforced (returns p r q u) = true
unforced (cleaned p c q u) = true
unforced (joins p j h) = true
