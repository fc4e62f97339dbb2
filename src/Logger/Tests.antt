-- ===== src/Logger/Tests.antt =====
-- The logger with a destination that counts, and its theorems there.
use genbuf.Prelude.{
  ◌≢◌, concat, ℕ, zero, suc, ◌≡◌, refl, Bool, true, false, not, Option, none, some, List, [], ◌∷◌,
  arith, length, length-append, ◌≤◌, ◌++◌, if◌then◌else◌,
}
use genbuf.Logger.{
  Msg, Logger, init, set_destination, Calls, State, Stop, crashed, puts_ok, stops, turn, run,
  content,
}
use genbuf.Output.Command.{World}
use genbuf.Output.{ends_line}
use genbuf.Output.Drivers.{tcp_driver}
use genbuf.Output.Drivers.Tcp.{TcpInv, tcp-IsDriver}
use genbuf.Output.Tests.{
  slow, slow-Obeys, slow-Accepts, slow-Selects, idle_net, idle_net-Serves, down, down-TcpInv,
}
use genbuf.Logger.Delivery.{Outlet, IsLine, with_output, run-Wrote}
use genbuf.Output.Text.{NoNul}
use genbuf.Logger.Order.{AllFit, Tracks, Healthy, Kept}
use genbuf.Logger.Start.{run-Kept}
use genbuf.Logger.Faults.{mark_behind-crashes}

abbrev is_even : ℕ → Bool
is_even zero = true
is_even (suc n) = not (is_even n)

-- every second delivery fails, from the first on
abbrev flaky : Calls ℕ
flaky = record {
  deliver = λ t h m. some (not (is_even h), suc h);
  size = λ t. 1;
  fopen_read = λ t. true;
  fopen_append = λ t. true;
  fputs = λ t. puts_ok;
  read_fails = λ t. false;
  at_eof = λ t. none;
  truncate = λ t. true;
  ferror = λ t. false;
}

flaky-Healthy : Healthy flaky
flaky-Healthy = record {
  reads = λ t. refl;
  appends = λ t. refl;
  puts = λ t. refl;
  lines = λ t. refl;
  truncates = λ t. refl;
}

abbrev steady : Calls ℕ
steady = record flaky { deliver = λ t h m. some (true, suc h) }

steady-Healthy : Healthy steady
steady-Healthy = record {
  reads = λ t. refl;
  appends = λ t. refl;
  puts = λ t. refl;
  lines = λ t. refl;
  truncates = λ t. refl;
}

-- every message fits
abbrev Any : Msg → Type 0
Any m = Unit

-- The destination counts the deliveries, with those that fail or without.
abbrev AtMost : List Msg → ℕ → Type 0
AtMost ds h = length ds ≤ h

abbrev Exactly : List Msg → ℕ → Type 0
Exactly ds h = length ds ≡ h

AtMost-suc :
    (ok : Bool) (ds : List Msg) (m : Msg) (h : ℕ)
    → length ds ≤ h
    → length (if ok then ds ++ m ∷ [] else ds) ≤ suc h
AtMost-suc true ds m h k = omega (arith, length-append ds (m ∷ []))
AtMost-suc false ds m h k = omega arith

flaky-Tracks : Tracks Any AtMost flaky
flaky-Tracks = record {
  delivers = λ t h m ds r f. (_, _, refl, AtMost-suc (not (is_even h)) ds m h r);
}

steady-Tracks : Tracks Any Exactly steady
steady-Tracks = record {
  delivers = λ t h m ds r f. (_, _, refl, omega (arith, length-append ds (m ∷ []), r));
}

-- the messages "a" to "d" with their newlines
abbrev a : Msg
a = 97 ∷ 10 ∷ []

abbrev b : Msg
b = 98 ∷ 10 ∷ []

abbrev c : Msg
c = 99 ∷ 10 ∷ []

abbrev d : Msg
d = 100 ∷ 10 ∷ []

abbrev logger : Logger ℕ
logger = record { backlog_file = some (120 ∷ []); dest = some 0 }

set_destination-init :
    set_destination (record init { backlog_file = some (120 ∷ []) }) 0 ≡ some logger
unfolding set_destination init
set_destination-init = refl

abbrev queue : List (Option Msg)
queue = some b ∷ some c ∷ some d ∷ none ∷ []

run-Kept_example :
    (stop : Stop) × (s : State ℕ) × (run flaky 20 logger queue (some (a ∷ [])) ≡ some (stop, s))
    × Kept (a ∷ b ∷ c ∷ d ∷ []) stop s
    × (length s.delivered ≤ s.dest)
run-Kept_example =
    run-Kept flaky Any AtMost 20 logger 0 queue (some (a ∷ [])) flaky-Healthy flaky-Tracks refl
      (omega arith) (tt, (tt, (tt, (tt, tt)))) (λ e. absurd (cc))

-- a message that was read from the backlog
abbrev reading : State ℕ
reading = record {
  backlog_file = some (120 ∷ []);
  dest = 0;
  queue = queue;
  msg = some a;
  file = some (a ∷ []);
  backlog_in = some 1;
  backlog_out = false;
  delivered = [];
  clock = 4;
}

mark_behind-crashes_example :
    (s : State ℕ) × (turn (record flaky { size = λ t. 4 }) (record reading { backlog_out = true })
      ≡ stops crashed s)
    × (content s.file ≡ a ∷ b ∷ c ∷ d ∷ [])
mark_behind-crashes_example =
    mark_behind-crashes (record flaky { size = λ t. 4 }) (record reading { backlog_out = true }) a 1
      1 (b ∷ c ∷ d ∷ []) [] (λ t. refl) refl refl refl refl refl (omega arith)

-- the files of the first logger, with a TCP output that takes two bytes at most at a time
abbrev files : Calls Outlet
files = record {
  deliver = λ t h m. none;
  size = λ t. 1;
  fopen_read = λ t. true;
  fopen_append = λ t. true;
  fputs = λ t. puts_ok;
  read_fails = λ t. false;
  at_eof = λ t. none;
  truncate = λ t. true;
  ferror = λ t. false;
}

files-Healthy : Healthy files
files-Healthy = record {
  reads = λ t. refl;
  appends = λ t. refl;
  puts = λ t. refl;
  lines = λ t. refl;
  truncates = λ t. refl;
}

abbrev world : World
world = record { clock = 0; sent = 9 ∷ [] }

abbrev sender : Logger Outlet
sender = record { backlog_file = some (120 ∷ []); dest = some (down, world) }

two_byte-IsLine : (x : ℕ) → x ≢ 0 → IsLine (x ∷ 10 ∷ [])
unfolding ends_line NoNul
two_byte-IsLine x z = (refl, omega arith, (z, (omega arith, tt)))

lines-AllFit : AllFit IsLine (a ∷ b ∷ c ∷ d ∷ [])
unfolding ends_line
lines-AllFit = (
  two_byte-IsLine 97 (omega arith),
  (
    two_byte-IsLine 98 (omega arith),
    (two_byte-IsLine 99 (omega arith), (two_byte-IsLine 100 (omega arith), tt)),
  ),
)

run-Wrote_example :
    (stop : Stop) × (s : State Outlet) × (run
        (with_output slow (tcp_driver idle_net []) files)
        20
        sender
        queue
        (some (a ∷ []))
      ≡ some (stop, s))
    × Kept (a ∷ b ∷ c ∷ d ∷ []) stop s
    × (s.dest.1.sent ≡ (9 ∷ []) ++ concat s.delivered)
run-Wrote_example =
    run-Wrote slow (tcp_driver idle_net []) TcpInv files 20 sender down world queue (some (a ∷ []))
      slow-Obeys slow-Accepts slow-Selects (tcp-IsDriver idle_net [] idle_net-Serves) (λ h i. i.2)
      down-TcpInv files-Healthy refl lines-AllFit (λ e. absurd (cc))
