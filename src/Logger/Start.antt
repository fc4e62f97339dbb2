-- ===== src/Logger/Start.antt =====
-- The run of the logger from its start, with the backlog of an earlier run.
use genbuf.Prelude.{
  ℕ, ◌≡◌, refl, sym, ap, ap₂, ◌∙◌, false, inl, inr, subst, Option, none, some, List, [], ◌++◌,
  arith, get_elem?, some-injective,
}
use genbuf.Logger.{
  Msg, Calls, State, Stop, Logger, content, initial, pop_next, open_read, at_line, old_line,
  old_from, old_backlog, first_with, first_message, after_start, run,
}
use genbuf.Logger.Order.{
  until_end, Healthy, Tracks, AllFit, Kept, Keeps, drop-get_elem?, drop-get_elem?-none,
}
use genbuf.Logger.Conserve.{take_next-Keeps, lines-at, Turn-cases}
use genbuf.Logger.Dest.{first_message-At}
use genbuf.Logger.Turns.{Tracked, AtTurn-Tracked, run_loop-Kept}

module _ {H : Type 0} (c : Calls H) (v : Healthy c) where
  first_line-Keeps :
      (s : State H) (line : Option Msg)
      → s.delivered ≡ []
      → s.backlog_out ≡ false
      → get_elem? (content s.file) 0 ≡ line
      → Keeps (content s.file ++ until_end s.queue) (first_message (old_line (at_line c s 0 line)))
  unfolding first_message first_with old_line at_line pop_next
  first_line-Keeps s none fresh off e =
      let empty = drop-get_elem?-none 0 (content s.file) e in
      take_next-Keeps c v (content s.file ++ until_end s.queue) _ s.queue refl empty off (
        ap₂ (λ d xs. d ++ until_end s.queue) fresh empty
        ∙ ap (λ xs. xs ++ until_end s.queue) (sym empty))
  first_line-Keeps s (some m) fresh off e =
      let (q, le) = drop-get_elem? 0 (content s.file) m e in
      (
        record {
          closed = λ shut. absurd (cc);
          within = λ p' e'. omega (arith, some-injective _ _ e');
        },
        ap₂ (λ d xs. d ++ (xs ++ until_end s.queue)) fresh (sym q),
      )

  pub start-Keeps :
      (path : Option Msg) (h : H) (queue : List (Option Msg)) (file : Option (List Msg))
      → (path ≡ none → content file ≡ [])
      → Keeps
          (content file ++ until_end queue)
          (first_message (old_backlog c (initial path h queue file) path))
  unfolding old_backlog old_from open_read first_message first_with pop_next
  start-Keeps none h queue file n =
      let empty = n refl in
      take_next-Keeps c v (content file ++ until_end queue) (initial none h queue file) queue refl
        empty refl (ap (λ xs. xs ++ until_end queue) (sym empty))
  start-Keeps (some path) h queue none n =
      take_next-Keeps c v (until_end queue) _ queue refl refl refl refl
  start-Keeps (some path) h queue (some lines) n =
      let s : State H = record (initial (some path) h queue (some lines)) {
        backlog_in = some 0;
        clock = 1;
      } in
      rw (v.reads 0) (
        subst (λ t. Keeps (lines ++ until_end queue) (first_message (old_line t)))
          (sym (lines-at c v (lines ++ until_end queue) s 0))
          (first_line-Keeps s (get_elem? lines 0) refl refl refl))

pub start-Tracked :
    {H : Type 0} (c : Calls H) (rel : List Msg → H → Type 0) (path : Option Msg) (h : H)
    (queue : List (Option Msg)) (file : Option (List Msg))
    → rel [] h
    → Tracked rel (first_message (old_backlog c (initial path h queue file) path))
start-Tracked c rel path h queue file r =
    AtTurn-Tracked rel h [] (first_message (old_backlog c (initial path h queue file) path))
      (first_message-At c h [] (initial path h queue file) path (refl, refl)) r

-- Where the files can be opened, read, written and truncated and every delivery of a message that
-- fits returns, the logger sends the old backlog and the queue up to the reader's mark, in order and
-- each message once, whichever deliveries fail and whenever. After any number of rounds, what is sent
-- and then what is current, in the backlog or in the queue make up the messages that there were. No run
-- aborts; where it ends all are sent, and where it crashes the rest is current or in the backlog. The
-- relation that a delivery keeps between the destination and what was sent holds at last. The
-- conditions are messages that fit, a destination of which the relation holds, and no backlog where no
-- file is named.
pub run-Kept :
    {H : Type 0} (c : Calls H) (fits : Msg → Type 0) (rel : List Msg → H → Type 0) (rounds : ℕ)
    (l : Logger H) (h : H) (queue : List (Option Msg)) (file : Option (List Msg))
    → Healthy c
    → Tracks fits rel c
    → l.dest ≡ some h
    → rel [] h
    → AllFit fits (content file ++ until_end queue)
    → (l.backlog_file ≡ none → content file ≡ [])
    → (stop : Stop) × (s : State H) × (run c rounds l queue file ≡ some (stop, s))
      × Kept (content file ++ until_end queue) stop s
      × rel s.delivered s.dest
unfolding run after_start
run-Kept c fits rel rounds l h queue file v tr dest r all n =
    let first = start-Keeps c v l.backlog_file h queue file n in
    let tracked = start-Tracked c rel l.backlog_file h queue file r in
    let t = first_message (old_backlog c (initial l.backlog_file h queue file) l.backlog_file) in
    elim (Turn-cases t) [
      | inl (s, e) ↦
          let (i, kept) = rw e at first in
          let (k, r') =
            run_loop-Kept c v fits rel tr (content file ++ until_end queue) all rounds s i kept
              (rw e at tracked) in
          (_, _, rw (dest, run) (ap (λ t. some (after_start c rounds t)) e), k, r')
      | inr (stop, s, e) ↦ (
        stop,
        s,
        rw (dest, run) (ap (λ t. some (after_start c rounds t)) e),
        rw e at first,
        rw e at tracked,
      )
    ]
