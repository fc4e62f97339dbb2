-- ===== src/Main/Tests.antt =====
-- Command lines, and the threads with one source.
use genbuf.Prelude.{
  take, ℕ, ◌≡◌, ◌≢◌, ◌≤◌, ◌++◌, refl, true, false, inl, none, some, List, [], ◌∷◌, arith, length,
  min,
}
use genbuf.InputTools
use genbuf.Sys.{got}
use genbuf.InputTools.{Answer}
use genbuf.Output.Command.{World}
use genbuf.Log.{rank, error, debug}
use genbuf.Logger
use genbuf.Logger.{Msg, Logger, Calls, State, ended, content, puts_ok}
use genbuf.Logger.Order.{Healthy, Tracks}
use genbuf.Reader
use genbuf.Reader.{Source, Reader, Kernel, Kind, readable, ends}
use genbuf.Setup.{
  Os, common, common_init, file_init, create_input_handler, create_output_handler, type_file,
  type_unknown, destination,
}
use genbuf.Setup.Tests.{os, net}
use genbuf.Main
use genbuf.Main.{Opt, Setting, start, takes, parse_type, take_options, short_of}
use genbuf.Main.Options.{take_options-Consistent, take_options-bounded}
use genbuf.Main.Options.Changes.{count, given}
use genbuf.Main.Accept.{dest}
use genbuf.Main.Threads.{run, joined, run-joined}

-- with no memory for a buffer
abbrev empty_os : Os
empty_os = record os { garbage = λ t. [] }

abbrev world : World
world = record { clock = 0; sent = [] }

abbrev short : ℕ → List ℕ → Opt
short c arg = record { c = c; option_index = 0; optarg = arg }

-- -v -v -s - -d -
abbrev options : List Opt
options = short 118 [] ∷ short 118 [] ∷ short 115 (45 ∷ []) ∷ short 100 (45 ∷ []) ∷ []

abbrev setting : Setting
setting = record {
  current_log_level = error;
  in_type = type_file;
  out_type = type_file;
  in_res = some (45 ∷ []);
  out_res = some (45 ∷ []);
  sources = record { fd = 0; handler = common (InputTools.init 0 4096 []) } ∷ [];
  logger = record { backlog_file = none; dest = some (destination type_file (some 1)) };
}

options_taken :
    take_options empty_os net (λ t. true) start world options
    ≡ takes setting (record world { clock = 3 })
unfolding take_options start Main.take_option short_of Main.add_input Main.register_source
    create_input_handler file_init common_init Main.source_added Reader.add_source Main.add_output
    Main.set_output Main.new_output Main.register_destination create_output_handler
    Main.destination_set Logger.set_destination Logger.init Main.more_verbose InputTools.init
options_taken = refl

take_options-Consistent_example :
    (length setting.sources ≡ count 115 options)
    × (given setting.logger.dest ≡ count 100 options)
    × (count 100 options ≤ 1)
    × (setting.in_type ≢ type_unknown)
    × (setting.out_type ≢ type_unknown)
take_options-Consistent_example =
    take_options-Consistent empty_os net (λ t. true) world (record world { clock = 3 }) setting
      options options_taken

take_options-bounded_example : (rank error ≡ min 5 (count 118 options)) × (rank error ≤ rank debug)
take_options-bounded_example =
    take_options-bounded empty_os net (λ t. true) world (record world { clock = 3 }) setting options
      options_taken

-- A source with two lines, and a destination that takes each message.
abbrev two_lines : List (List ℕ)
two_lines = (97 ∷ 10 ∷ []) ∷ (98 ∷ 10 ∷ []) ∷ []

abbrev kind : Kind ℕ
kind t h =
    some (record { status = InputTools.status_eof; handler = h; lines = two_lines; added = [] })

abbrev kernel : Kernel
kernel = record { select = λ t fds. readable fds; has_flags = λ t fd. true }

abbrev reader : Reader ℕ
reader = record Reader.init { sources = record { fd = 3; handler = 0 } ∷ [] }

abbrev steady : Calls ℕ
steady = record {
  deliver = λ t h m. some (true, h);
  size = λ t. 0;
  fopen_read = λ t. true;
  fopen_append = λ t. true;
  fputs = λ t. puts_ok;
  read_fails = λ t. false;
  at_eof = λ t. none;
  truncate = λ t. true;
  ferror = λ t. false;
}

steady-Healthy : Healthy steady
steady-Healthy = record {
  reads = λ t. refl;
  appends = λ t. refl;
  puts = λ t. refl;
  lines = λ t. refl;
  truncates = λ t. refl;
}

abbrev logger : Logger ℕ
logger = record { backlog_file = none; dest = some 7 }

-- every message fits, and the destination stays the same
steady-Tracks : Tracks (λ m. Unit) (λ ds h. h ≡ 7) steady
steady-Tracks = record { delivers = λ t h m ds r f. (_, _, refl, r) }

run-joined_example :
    (s : State ℕ) × (run kernel kind 5 reader steady 4 logger none ≡ joined (some (ended, s)))
    × (s.delivered ≡ [] ++ two_lines)
    × (s.dest ≡ 7)
unfolding Reader.run Reader.init Reader.scan_all Reader.scan Reader.visit Reader.is_set
    Reader.all_fds Reader.on_read Reader.add_sources Reader.by_status Reader.remove_handler
    Reader.clear
run-joined_example =
    run-joined kernel kind 5 reader
      (record {
        sources = [];
        fds = [];
        queue = two_lines;
        clock = 2;
        cleaned = record { fd = 3; handler = 0 } ∷ [];
      })
      steady (λ m. Unit) (λ ds h. h ≡ 7) 4 logger 7 none (inl refl) steady-Healthy steady-Tracks
      (λ t h m ds r f. (h, refl)) refl refl (tt, (tt, tt)) (λ e. refl) (omega arith)

-- one byte after the other
abbrev one_byte : Answer
one_byte = record { fionread = some 1; read = λ k. got (take k (97 ∷ [])) }
