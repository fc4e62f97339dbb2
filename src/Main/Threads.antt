-- ===== src/Main/Threads.antt =====
-- The function run of src/main.c: the threads of the reader and of the logger, and the queue between
-- them.
use genbuf.Prelude.{
  ℕ, ◌≡◌, ◌⊎◌, inl, inr, refl, ap, ◌∙◌, Option, none, some, List, [], ◌∷◌, ◌++◌, ◌<◌, length,
}
use genbuf.Sys.{Errno}
use genbuf.Reader
use genbuf.Reader.{Reader, Kernel, Kind, Ended, ends, ends_on_error, aborted, out_of_fuel, cleanup}
use genbuf.Logger
use genbuf.Logger.{Msg, Logger, Calls, State, Stop, ended, content}
use genbuf.Logger.Order.{until_end, Healthy, Tracks, AllFit}
use genbuf.Logger.Live.{HasEnd, Delivers, run-ends}

-- Both threads are joined, with what the logger's run comes to; or the reader aborts, or runs on.
pub data Joined (H : Type 0) : Type 0 where
  joined : Option (Stop × State H) → Joined H
  reader_aborts : Joined H
  reader_runs : Joined H

-- The queue of the logger is all that the reader pushes, since a pop waits until there is a
-- message.
unfoldable pub after_reader :
    {S H : Type 0} → Calls H → ℕ → Logger H → Option (List Msg) → Ended S → Joined H
after_reader c rounds l file (ends r) = joined (Logger.run c rounds l (cleanup r.queue) file)
after_reader c rounds l file (ends_on_error e r) =
    joined (Logger.run c rounds l (cleanup r.queue) file)
after_reader c rounds l file aborted = reader_aborts
after_reader c rounds l file out_of_fuel = reader_runs

unfoldable pub run :
    {S H : Type 0}
    → Kernel
    → Kind S
    → ℕ
    → Reader S
    → Calls H
    → ℕ
    → Logger H
    → Option (List Msg)
    → Joined H
run kernel kind reads r c turns l file =
    after_reader c turns l file (Reader.run kernel kind reads r)

until_end-cleanup : (lines : List (List ℕ)) → until_end (cleanup lines) ≡ lines
unfolding cleanup
until_end-cleanup [] = refl
until_end-cleanup (line ∷ lines) = ap (λ xs. line ∷ xs) (until_end-cleanup lines)

cleanup-HasEnd : (lines : List (List ℕ)) → HasEnd (cleanup lines)
unfolding cleanup
cleanup-HasEnd [] = tt
cleanup-HasEnd (line ∷ lines) = cleanup-HasEnd lines

-- the reader's thread ends, with the reader
abbrev pub Ends : {S : Type 0} → Ended S → Reader S → Type 0
Ends r reader = (r ≡ ends reader) ⊎ ((e : Errno) × (r ≡ ends_on_error e reader))

-- Where the reader ends, be it on an error, both threads are joined and the lines that sources
-- reported are sent, behind those of the old backlog, in order and each once, and nothing else; and the
-- relation that a delivery keeps between the destination and what was sent holds. The conditions are a
-- destination of which the relation holds and that every message that fits can be delivered to,
-- messages that fit, files that work, a round for each message and one more, and no backlog where no
-- file is named.
pub run-joined :
    {S H : Type 0} (kernel : Kernel) (kind : Kind S) (reads : ℕ) (reader r : Reader S) (c : Calls H)
    (fits : Msg → Type 0) (rel : List Msg → H → Type 0) (turns : ℕ) (l : Logger H) (h : H)
    (file : Option (List Msg))
    → Ends (Reader.run kernel kind reads reader) r
    → Healthy c
    → Tracks fits rel c
    → Delivers fits rel c
    → l.dest ≡ some h
    → rel [] h
    → AllFit fits (content file ++ r.queue)
    → (l.backlog_file ≡ none → content file ≡ [])
    → length (content file ++ r.queue) < turns
    → (s : State H) × (run kernel kind reads reader c turns l file ≡ joined (some (ended, s)))
      × (s.delivered ≡ content file ++ r.queue)
      × rel s.delivered s.dest
unfolding run after_reader
run-joined kernel kind reads reader r c fits rel turns l h file e v tr d dest start all n less =
    let same = until_end-cleanup r.queue in
    let (s, ran, sent, related) =
      run-ends c fits rel turns l h (cleanup r.queue) file v tr d dest start (rw same all) n
        (cleanup-HasEnd r.queue) (rw same less) in
    (
      s,
      elim e [
        | inl q ↦ ap (after_reader c turns l file) q ∙ ap joined ran
        | inr (_, q) ↦ ap (after_reader c turns l file) q ∙ ap joined ran
      ],
      sent ∙ ap (λ xs. content file ++ xs) same,
      related,
    )
