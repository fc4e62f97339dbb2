-- ===== src/Main/Carries/Tests.antt =====
-- Two sources with a line each, read byte by byte, and a TCP destination that takes two bytes at a time.
use genbuf.Prelude.{
  ℕ, ◌≡◌, ◌++◌, refl, true, false, inr, some, none, List, [], ◌∷◌, arith, length, replicate,
  length-replicate, concat,
}
use genbuf.InputTools
use genbuf.InputTools.{max_msg_size, CommonHandler}
use genbuf.NetTools.{
  net_get_socketaddr, parse_resource_spec, whole_number, split_host, lookup, resolve, host_address,
}
use genbuf.Output.Command.{World}
use genbuf.Output.{init}
use genbuf.Output.Tests.{
  slow, slow-Obeys, slow-Accepts, slow-Selects, idle_net, idle_net-Serves, down, down-TcpInv,
}
use genbuf.Output.Prompt.{IsPrompt}
use genbuf.Output.Drivers.{tcp_driver}
use genbuf.Output.Drivers.Tcp.{TcpInv, tcp-IsDriver}
use genbuf.Output.Drivers.Prompt.{IsFound, tcp-IsPrompt}
use genbuf.Logger.{Msg, Calls, Logger, State, ended, puts_ok}
use genbuf.Logger.Order.{Healthy}
use genbuf.Logger.Delivery.{Outlet, with_output}
use genbuf.Output.Text.{NoNul}
use genbuf.Main.Lines.{HasText}
use genbuf.Reader
use genbuf.Reader.{Source, Kernel, Reader, readable, ends, is_set}
use genbuf.Reader.Ends.{All}
use genbuf.Reader.Merge.{Merge, load}
use genbuf.Reader.Merge.Run.{Wakes, any_ready}
use genbuf.Reader.Pipes.{Pipe, InReach, IsNew, piped_kind, short_lines, run-merges}
use genbuf.Main.Threads.{joined, run}
use genbuf.Main.Carries.{run-carries}

zeroes : (n : ℕ) → (xs : List ℕ) × (length xs ≡ n)
zeroes n = (replicate n 0, length-replicate n 0)

abbrev source : ℕ → List ℕ → Source Pipe
source fd stream = record {
  fd = fd;
  handler = record { handler = InputTools.init fd 4096 (zeroes max_msg_size).0; stream = stream };
}

abbrev sources : List (Source Pipe)
sources = source 3 (97 ∷ 10 ∷ []) ∷ source 4 (98 ∷ 10 ∷ 99 ∷ []) ∷ []

sources-IsNew : All IsNew sources
unfolding All
sources-IsNew = (
  (3, 4096, (zeroes max_msg_size).0, (zeroes max_msg_size).1, refl),
  ((4, 4096, (zeroes max_msg_size).0, (zeroes max_msg_size).1, refl), tt),
)

sources-HasText : All HasText sources
unfolding All NoNul
sources-HasText =
    ((omega arith, (omega arith, tt)), ((omega arith, (omega arith, (omega arith, tt))), tt))

-- select() reports all sources
abbrev kernel : Kernel
kernel = record { select = λ t fds. readable fds; has_flags = λ t fd. true }

kernel-Wakes : Wakes kernel
unfolding any_ready is_set
kernel-Wakes t fd fds = (fd ∷ fds, refl, ground arith)

abbrev one_byte : ℕ → ℕ
one_byte t = 1

one_byte-InReach : InReach max_msg_size one_byte
one_byte-InReach t = (omega arith, omega arith)

run-merges_example :
    (r : Reader Pipe) × (Reader.run kernel
        (piped_kind one_byte)
        10
        (record Reader.init { sources = sources })
      ≡ ends r)
    × (r.sources ≡ [])
    × Merge (short_lines sources) r.queue
unfolding load
run-merges_example =
    run-merges kernel one_byte 10 sources one_byte-InReach kernel-Wakes sources-IsNew (omega arith)

idle_net-IsFound : IsFound idle_net []
unfolding net_get_socketaddr parse_resource_spec whole_number split_host lookup resolve host_address
idle_net-IsFound w = (_, _, refl, refl)

slow-IsPrompt : IsPrompt TcpInv slow (tcp_driver idle_net [])
slow-IsPrompt =
    tcp-IsPrompt idle_net [] slow idle_net-Serves idle_net-IsFound (λ t fd. refl)
      (λ t fd fds. (fd ∷ [], refl))

abbrev world : World
world = record { clock = 0; sent = [] }

abbrev files : Calls Outlet
files = record {
  deliver = λ t o m. none;
  size = λ t. 0;
  fopen_read = λ t. true;
  fopen_append = λ t. true;
  fputs = λ t. puts_ok;
  read_fails = λ t. false;
  at_eof = λ t. none;
  truncate = λ t. true;
  ferror = λ t. false;
}

files-Healthy : Healthy files
files-Healthy = record {
  reads = λ t. refl;
  appends = λ t. refl;
  puts = λ t. refl;
  lines = λ t. refl;
  truncates = λ t. refl;
}

abbrev logger : Logger Outlet
logger = record { backlog_file = none; dest = some (down, world) }

run-carries_example :
    (st : State Outlet) × (lines : List Msg) × (run kernel
        (piped_kind one_byte)
        10
        (record Reader.init { sources = sources })
        (with_output slow (tcp_driver idle_net []) files)
        8
        logger
        none
      ≡ joined (some (ended, st)))
    × Merge (short_lines sources) lines
    × (st.dest.1.sent ≡ [] ++ concat ([] ++ lines))
unfolding load init
run-carries_example =
    run-carries kernel one_byte 10 sources slow (tcp_driver idle_net []) TcpInv files 8 logger down
      world none one_byte-InReach kernel-Wakes sources-IsNew sources-HasText (omega arith)
      slow-Obeys slow-Accepts slow-Selects (tcp-IsDriver idle_net [] idle_net-Serves) slow-IsPrompt
      (λ h i. i.2) (down-TcpInv, inr refl) files-Healthy refl tt (λ e. refl) (omega arith)
