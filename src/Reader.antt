-- ===== src/Reader.antt =====
-- src/reader.c, reader.h and input.h: the loop that waits for sources, lets the ready ones read, and
-- removes those that are at their end.
-- A source's `read` member is a function pointer, a `Kind`, given the number of calls made before.
-- The array of handlers is a list; the queue is the list of its messages. realloc succeeds.
pub mod Ends
pub mod Cleanup
pub mod Closes
pub mod Safe
pub mod Reread
pub mod Common
pub mod Merge
pub mod Pipes
mod Tests
use genbuf.Prelude.{
  ℕ, zero, suc, ◌||◌, Bool, false, Option, none, some, List, [], ◌∷◌, ◌++◌, ◌==◌, if◌then◌else◌,
}
use genbuf.Sys.{Errno, ebadf}
use genbuf.InputTools.{
  Status, status_ok, status_eof, status_unknown, Answer, CommonHandler, Outcome, returned,
  common_read,
}
use genbuf.InputTools

-- an element of `struct handler_list`
pub record Source (S : Type 0) : Type 0 where
  pub fd : ℕ
  pub handler : S

-- What a read comes to: its result, the handler behind it, the lines that it reported, and the
-- handlers that it added, each with its descriptor, -1 as `none`.
pub record Reading (S : Type 0) : Type 0 where
  pub status : Status
  pub handler : S
  pub lines : List (List ℕ)
  pub added : List (Option ℕ × S)

-- `none` is a read that aborts.
abbrev pub Kind : Type 0 → Type 0
Kind S = ℕ → S → Option (Reading S)

-- the `read` member of a common handler, where `answers` are the kernel's
unfoldable pub common_kind : (ℕ → Answer) → Kind CommonHandler
common_kind answers t h = elim (common_read (answers t) h) [
  | returned status h' lines ↦
      some (record { status = status; handler = h'; lines = lines; added = [] })
  | InputTools.aborted ↦ none
  | InputTools.out_of_fuel ↦ none
]

-- `cleaned` are the handlers whose cleanup was called, in the order of the calls.
pub record Reader (S : Type 0) : Type 0 where
  pub sources : List (Source S)
  pub fds : List ℕ
  pub queue : List (List ℕ)
  pub clock : ℕ
  pub cleaned : List (Source S)

pub data Selected : Type 0 where
  select_failed : Errno → Selected
  readable : List ℕ → Selected

-- `has_flags` is false where fcntl(F_GETFL) is -1.
pub record Kernel : Type 0 where
  pub select : ℕ → List ℕ → Selected
  pub has_flags : ℕ → ℕ → Bool

unfoldable pub is_set : ℕ → List ℕ → Bool
is_set fd [] = false
is_set fd (x ∷ xs) = x == fd || is_set fd xs

-- FD_CLR
unfoldable pub clear : ℕ → List ℕ → List ℕ
clear fd [] = []
clear fd (x ∷ xs) = let rest = clear fd xs in if x == fd then rest else x ∷ rest

unfoldable pub add_source : {S : Type 0} → List (Source S) → Option ℕ → S → Option (List (Source S))
add_source sources none s = none
add_source sources (some fd) s = some (sources ++ record { fd = fd; handler = s } ∷ [])

unfoldable pub add_sources :
    {S : Type 0} → List (Source S) → List (Option ℕ × S) → Option (List (Source S))
add_sources sources [] = some sources
add_sources sources ((fd, s) ∷ more) = elim (add_source sources fd s) [
  | none ↦ none
  | some sources' ↦ add_sources sources' more
]

-- Where the scan of the handlers stands: those that were added since it began lie behind the others.
pub record Progress (S : Type 0) : Type 0 where
  pub added : List (Source S)
  pub fds : List ℕ
  pub queue : List (List ℕ)
  pub clock : ℕ
  pub cleaned : List (Source S)

-- what becomes of a source in a scan
pub data Visit (S : Type 0) : Type 0 where
  stays : Source S → Progress S → Visit S
  leaves : Progress S → Visit S
  dies : Visit S

-- The list behind the source moves up. That the member `cleanup` of its handler is called is noted in
-- `cleaned`; what it does is the subject of InputTools/Cleanup, and no part of a run.
unfoldable pub remove_handler : {S : Type 0} → Source S → Progress S → Progress S
remove_handler s p = record p { fds = clear s.fd p.fds; cleaned = p.cleaned ++ s ∷ [] }

unfoldable pub by_status : {S : Type 0} → Source S → S → Progress S → Status → Visit S
by_status s h p status_ok = stays (record s { handler = h }) p
by_status s h p status_eof = leaves (remove_handler (record s { handler = h }) p)
by_status s h p status_unknown = leaves (remove_handler (record s { handler = h }) p)

unfoldable pub on_read : {S : Type 0} → Source S → Progress S → Option (Reading S) → Visit S
on_read s p none = dies
on_read s p (some r) = elim (add_sources p.added r.added) [
  | none ↦ dies
  | some added ↦
      by_status s r.handler
        (record p { added = added; queue = p.queue ++ r.lines; clock = suc p.clock }) r.status
]

unfoldable pub visit : {S : Type 0} → Kind S → Source S → Progress S → Visit S
visit kind s p = if is_set s.fd p.fds then on_read s p (kind p.clock s.handler) else stays s p

-- the reader behind a scan, with the handlers before and behind the index
abbrev pub reader_of : {S : Type 0} → List (Source S) → List (Source S) → Progress S → Reader S
reader_of before rest p = record {
  sources = before ++ (rest ++ p.added);
  fds = p.fds;
  queue = p.queue;
  clock = p.clock;
  cleaned = p.cleaned;
}

-- `rerun` is the jump behind a removal.
pub data Scanned (S : Type 0) : Type 0 where
  coped : Reader S → Scanned S
  rerun : Reader S → Scanned S
  scan_aborts : Scanned S

-- the loop over the handlers, with those before the index and those from it on
unfoldable pub scan :
    {S : Type 0} → Kind S → (before rest : List (Source S)) → Progress S → Scanned S
scan kind before [] p = coped (reader_of before [] p)
scan kind before (s ∷ rest) p = elim (visit kind s p) [
  | stays s' p' ↦ scan kind (before ++ s' ∷ []) rest p'
  | leaves p' ↦ rerun (reader_of before rest p')
  | dies ↦ scan_aborts
]

abbrev pub progress : {S : Type 0} → Reader S → Progress S
progress r = record {
  added = [];
  fds = r.fds;
  queue = r.queue;
  clock = r.clock;
  cleaned = r.cleaned;
}

pub data Ended (S : Type 0) : Type 0 where
  ends : Reader S → Ended S
  ends_on_error : Errno → Reader S → Ended S
  aborted : Ended S
  out_of_fuel : Ended S

-- scans until one copes with all handlers; `ends` is its reader
unfoldable pub scan_all : {S : Type 0} → Kind S → ℕ → Reader S → Ended S
scan_all kind zero r = out_of_fuel
scan_all kind (suc rounds) r = elim (scan kind [] r.sources (progress r)) [
  | coped r' ↦ ends r'
  | rerun r' ↦ scan_all kind rounds r'
  | scan_aborts ↦ aborted
]

unfoldable pub all_fds : {S : Type 0} → List (Source S) → List ℕ
all_fds [] = []
all_fds (s ∷ rest) = s.fd ∷ all_fds rest

unfoldable pub keep :
    {S : Type 0}
    → Source S
    → Option (Source S × List (Source S))
    → Option (Source S × List (Source S))
keep s none = none
keep s (some (bad, rest)) = some (bad, s ∷ rest)

-- the first source with a bad descriptor, and the others
unfoldable pub without_bad :
    {S : Type 0} → (ℕ → Bool) → List (Source S) → Option (Source S × List (Source S))
without_bad good [] = none
without_bad good (s ∷ rest) =
    let others = keep s (without_bad good rest) in if good s.fd then others else some (s, rest)

-- All descriptors were set for the select() that failed, and stay set.
unfoldable pub remove_bad :
    {S : Type 0} → Reader S → Option (Source S × List (Source S)) → Option (Reader S)
remove_bad r none = none
remove_bad r (some (bad, sources)) = some (record r {
  sources = sources;
  fds = clear bad.fd (all_fds r.sources);
  clock = suc r.clock;
  cleaned = r.cleaned ++ bad ∷ [];
})

unfoldable pub recover : {S : Type 0} → Kernel → Errno → Reader S → Option (Reader S)
recover kernel ebadf r = remove_bad r (without_bad (kernel.has_flags r.clock) r.sources)
recover kernel _ r = none

-- One round for each select(), whose descriptors stay set where it fails.
unfoldable pub run : {S : Type 0} → Kernel → Kind S → ℕ → Reader S → Ended S
run kernel kind zero r = out_of_fuel
run kernel kind (suc rounds) r = elim (scan_all kind rounds r) [
  | out_of_fuel ↦ out_of_fuel
  | aborted ↦ aborted
  | ends_on_error e r' ↦ ends_on_error e r'
  | ends r' ↦ elim r'.sources [
    | [] ↦ ends (record r' { fds = [] })
    | _ ∷ _ ↦ elim (kernel.select r'.clock (all_fds r'.sources)) [
      | readable ready ↦ run kernel kind rounds (record r' { fds = ready; clock = suc r'.clock })
      | select_failed e ↦ elim (recover kernel e (record r' { clock = suc r'.clock })) [
        | none ↦ ends_on_error e (record r' { fds = all_fds r'.sources; clock = suc r'.clock })
        | some r'' ↦ run kernel kind rounds r''
      ]
    ]
  ]
]

unfoldable pub init : {S : Type 0} → Reader S
init = record { sources = []; fds = []; queue = []; clock = 0; cleaned = [] }

-- The queue that the reader leaves: its messages, and the mark of the end, NULL, which cleanup pushes
-- behind them.
unfoldable pub cleanup : List (List ℕ) → List (Option (List ℕ))
cleanup [] = none ∷ []
cleanup (line ∷ lines) = some line ∷ cleanup lines

-- reader_cleanup calls the cleanup of every handler that is left
unfoldable pub clean_handlers : {S : Type 0} → Reader S → Reader S
clean_handlers r = record r { sources = []; cleaned = r.cleaned ++ r.sources }
