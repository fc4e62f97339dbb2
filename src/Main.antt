-- ===== src/Main.antt =====
-- src/main.c and types.h: the names of the types and the options of the command line.
-- getopt_long() gives the options; the run goes on where main() calls run().
pub mod Types
pub mod Options
pub mod Accept
pub mod Threads
pub mod Shutdown
pub mod Lines
pub mod Survives
pub mod Carries
mod Tests
use genbuf.Prelude.{
  ℕ, zero, suc, ◌+◌, Bool, true, false, ◌&&◌, Option, none, some, List, [], ◌∷◌, ◌==◌, leb,
  if◌then◌else◌, get_elem?,
}
use genbuf.NetTools.{Net}
use genbuf.Output.Command.{World, Run, ok, aborted, out_of_fuel, tick}
use genbuf.Log.{Level, impossible, critical, error, warning, info, debug}
use genbuf.Logger
use genbuf.Logger.{Logger}
use genbuf.Reader.{Source, add_source}
use genbuf.Setup.{
  Os, Input, get_fd, IoType, type_udp, type_tcp, type_unix, type_file, type_unknown, Destination,
  create_input_handler, create_output_handler,
}

-- tolower() of the C locale
abbrev pub tolower : ℕ → ℕ
tolower c = if leb 65 c && leb c 90 then c + 32 else c

-- Two texts differ at most in the case of their letters: the result 0 of strcasecmp.
abbrev pub strcasecmp : List ℕ → List ℕ → Bool
strcasecmp [] [] = true
strcasecmp [] (d ∷ ds) = false
strcasecmp (c ∷ cs) [] = false
strcasecmp (c ∷ cs) (d ∷ ds) = (tolower c == tolower d) && strcasecmp cs ds

-- "file", "udp", "tcp" and "unix"
abbrev pub file_name : List ℕ
file_name = 102 ∷ 105 ∷ 108 ∷ 101 ∷ []

abbrev pub udp_name : List ℕ
udp_name = 117 ∷ 100 ∷ 112 ∷ []

abbrev pub tcp_name : List ℕ
tcp_name = 116 ∷ 99 ∷ 112 ∷ []

abbrev pub unix_name : List ℕ
unix_name = 117 ∷ 110 ∷ 105 ∷ 120 ∷ []

unfoldable pub parse_type : List ℕ → IoType
parse_type type =
    if strcasecmp type file_name
    then type_file
    else (if strcasecmp type udp_name
        then type_udp
        else (if strcasecmp type tcp_name
            then type_tcp
            else (if strcasecmp type unix_name then type_unix else type_unknown)))

-- What getopt_long gives: its result, the index of a long option, and `optarg`.
pub record Opt : Type 0 where
  pub c : ℕ
  pub option_index : ℕ
  pub optarg : List ℕ

-- the `val` members of long_options: v, h, i, o, s, s, d, d, d, b and the closing 0
abbrev pub long_options : List ℕ
long_options = 118 ∷ 104 ∷ 105 ∷ 111 ∷ 115 ∷ 115 ∷ 100 ∷ 100 ∷ 100 ∷ 98 ∷ 0 ∷ []

abbrev pub or_zero : Option ℕ → ℕ
or_zero none = 0
or_zero (some c) = c

-- The index is one of the array's.
unfoldable pub short_of : Opt → ℕ
short_of opt = if opt.c == 0 then or_zero (get_elem? long_options opt.option_index) else opt.c

-- `current_log_level++` where it is below debug
unfoldable pub more_verbose : Level → Level
more_verbose impossible = critical
more_verbose critical = error
more_verbose error = warning
more_verbose warning = info
more_verbose info = debug
more_verbose debug = debug

-- The variables of main() that the options set.
pub record Setting : Type 0 where
  pub current_log_level : Level
  pub in_type : IoType
  pub out_type : IoType
  pub in_res : Option (List ℕ)
  pub out_res : Option (List ℕ)
  pub sources : List (Source Input)
  pub logger : Logger Destination

unfoldable pub start : Setting
start = record {
  current_log_level = impossible;
  in_type = type_file;
  out_type = type_file;
  in_res = none;
  out_res = none;
  sources = [];
  logger = Logger.init;
}

-- An option is taken, or main() returns EXIT_FAILURE; abort() and exit() are `dies`.
pub data Taken : Type 0 where
  takes : Setting → World → Taken
  fails : Taken
  dies : Taken

abbrev pub is_unknown : IoType → Bool
is_unknown type_unknown = true
is_unknown _ = false

unfoldable pub set_in_type : Setting → World → IoType → Taken
set_in_type s w type_unknown = fails
set_in_type s w ty = takes (record s { in_type = ty }) w

unfoldable pub set_out_type : Setting → World → IoType → Taken
set_out_type s w type_unknown = fails
set_out_type s w ty = takes (record s { out_type = ty }) w

-- `rd->add_source(rd, inhandler)`, whose Require fails for a descriptor -1
unfoldable pub source_added : Setting → World → Option (List (Source Input)) → Taken
source_added s w none = dies
source_added s w (some sources) = takes (record s { sources = sources }) w

unfoldable pub register_source : Setting → Run Input → Taken
register_source s (ok h w) = source_added s w (add_source s.sources (some (get_fd h)) h)
register_source s aborted = dies
register_source s out_of_fuel = dies

-- -s, with the result of strdup()
unfoldable pub add_input : Os → Net → Setting → World → List ℕ → Bool → Taken
add_input os net s w res false = fails
add_input os net s w res true =
    register_source (record s { in_res = some res })
      (create_input_handler os net s.in_type res (tick w))

unfoldable pub destination_set : Setting → World → Option (Logger Destination) → Taken
destination_set s w none = dies
destination_set s w (some l) = takes (record s { logger = l }) w

unfoldable pub register_destination : Setting → Run Destination → Taken
register_destination s (ok d w) = destination_set s w (Logger.set_destination s.logger d)
register_destination s aborted = dies
register_destination s out_of_fuel = dies

unfoldable pub new_output : Os → Setting → World → List ℕ → Bool → Taken
new_output os s w res false = fails
new_output os s w res true =
    register_destination (record s { out_res = some res })
      (create_output_handler os s.out_type res (tick w))

unfoldable pub set_output : Os → Setting → World → List ℕ → Bool → Option (List ℕ) → Taken
set_output os s w res dup (some old) = fails
set_output os s w res dup none = new_output os s w res dup

-- -d, with the result of strdup()
unfoldable pub add_output : Os → Setting → World → List ℕ → Bool → Taken
add_output os s w res dup =
    if is_unknown s.out_type then fails else set_output os s w res dup s.out_res

unfoldable pub set_backlog : Setting → World → List ℕ → Bool → Taken
set_backlog s w path false = fails
set_backlog s w path true =
    takes (record s { logger = record s.logger { backlog_file = some path } }) (tick w)

-- The switch: v, i, o, s, d and b. The others, h and ? among them, end with EXIT_FAILURE. `dup` is
-- whether strdup() succeeds, by the number of calls made before.
unfoldable pub take_option : Os → Net → (ℕ → Bool) → Setting → World → List ℕ → ℕ → Taken
take_option os net dup s w arg c =
    if c == 118
    then takes (record s { current_log_level = more_verbose s.current_log_level }) w
    else (if c == 105
        then set_in_type s w (parse_type arg)
        else (if c == 111
            then set_out_type s w (parse_type arg)
            else (if c == 115
                then add_input os net s w arg (dup w.clock)
                else (if c == 100
                    then add_output os s w arg (dup w.clock)
                    else (if c == 98 then set_backlog s w arg (dup w.clock) else fails)))))

-- the loop over the options
unfoldable pub take_options : Os → Net → (ℕ → Bool) → Setting → World → List Opt → Taken
take_options os net dup s w [] = takes s w
take_options os net dup s w (opt ∷ opts) =
    elim (take_option os net dup s w opt.optarg (short_of opt)) [
      | takes s' w' ↦ take_options os net dup s' w' opts
      | fails ↦ fails
      | dies ↦ dies
    ]
