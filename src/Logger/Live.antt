-- ===== src/Logger/Live.antt =====
-- The logger gets to the reader's mark of the end, where every delivery succeeds.
use genbuf.Prelude.{
  ℕ, zero, suc, ◌+◌, ◌<◌, ◌≡◌, refl, sym, ap, ◌∙◌, true, inl, inr, ◌⊎◌, subst, Option, none, some,
  Option-cases, List, [], ◌∷◌, ◌++◌, arith, length, length-append,
}
use genbuf.Logger.{
  Msg, Calls, State, Stop, ended, Turn, goes, stops, Logger, content, initial, take_next, pop_next,
  next_from, sent, at_line, read_line, after_line, truncate_backlog, on_delivery, turn_with, turn,
  run_loop, old_line, old_from, open_read, old_backlog, first_with, first_message, after_start, run,
}
use genbuf.Logger.Order.{until_end, pending, Healthy, Tracks, AllFit, IsValid}
use genbuf.Logger.Turns.{current-fits, turn-Keeps, run_loop-Kept}
use genbuf.Logger.Start.{start-Keeps, start-Tracked}

-- the reader's mark is in the queue
abbrev pub HasEnd : List (Option Msg) → Type 0
HasEnd [] = ⊥
HasEnd (none ∷ q) = Unit
HasEnd (some m ∷ q) = HasEnd q

-- the mark was taken, or it is still in the queue
abbrev Marked : {H : Type 0} → State H → Type 0
Marked s = (s.msg ≡ none) ⊎ HasEnd s.queue

-- a turn that goes on with the mark ahead, and with what is sent unchanged
abbrev Goes : {H : Type 0} → State H → Turn H → Type 0
Goes {H} s t = (s' : State H) × (t ≡ goes s') × (s'.delivered ≡ s.delivered) × Marked s'

take_next-Goes :
    {H : Type 0} (s : State H) (q : List (Option Msg)) → HasEnd q → Goes s (take_next s q)
unfolding take_next
take_next-Goes s [] e = absurd e
take_next-Goes s (none ∷ q) e = (_, refl, refl, inl refl)
take_next-Goes s (some m ∷ q) e = (_, refl, refl, inr e)

at_line-Goes :
    {H : Type 0} (c : Calls H) (s : State H) (p : ℕ) (line : Option Msg)
    → HasEnd s.queue
    → Goes s (after_line c (at_line c s p line))
unfolding after_line at_line pop_next truncate_backlog
at_line-Goes c s p none e = take_next-Goes _ s.queue e
at_line-Goes c s p (some m) e = (_, refl, refl, inr e)

next_from-Goes :
    {H : Type 0} (c : Calls H) (s : State H) (b : Option ℕ)
    → HasEnd s.queue
    → Goes s (next_from c s b)
unfolding next_from pop_next read_line
next_from-Goes c s none e = take_next-Goes s s.queue e
next_from-Goes c s (some p) e = at_line-Goes c s p _ e

-- every delivery of a message that fits succeeds
abbrev pub Delivers : {H : Type 0} → (Msg → Type 0) → (List Msg → H → Type 0) → Calls H → Type 0
Delivers {H} fits rel c =
    (t : ℕ) (h : H) (m : Msg) (ds : List Msg)
    → rel ds h
    → fits m
    → (h' : H) × (c.deliver t h m ≡ some (true, h'))

pub loop-goes :
    {H : Type 0} (c : Calls H) (rounds : ℕ) (s s' : State H)
    → turn c s ≡ goes s'
    → run_loop c (suc rounds) s ≡ run_loop c rounds s'
unfolding run_loop
loop-goes c rounds s s' e = rw (e, run_loop) refl

pub loop-stops :
    {H : Type 0} (c : Calls H) (rounds : ℕ) (s s' : State H) (stop : Stop)
    → turn c s ≡ stops stop s'
    → run_loop c (suc rounds) s ≡ (stop, s')
unfolding run_loop
loop-stops c rounds s s' stop e = rw (e, run_loop) refl

none-ends : {H : Type 0} (c : Calls H) (s : State H) → turn_with c s none ≡ stops ended s
unfolding turn_with
none-ends c s = refl

marked : {H : Type 0} (s : State H) (m : Msg) → s.msg ≡ some m → Marked s → HasEnd s.queue
marked s m e (inl q) = absurd (cc)
marked s m e (inr k) = k

module _ {H : Type 0} (c : Calls H) (v : Healthy c) (fits : Msg → Type 0)
    (rel : List Msg → H → Type 0) (tr : Tracks fits rel c) (d : Delivers fits rel c)
    (total : List Msg) (all : AllFit fits total) where
  sent-Goes :
      (s : State H) (m : Msg)
      → rel s.delivered s.dest
      → fits m
      → HasEnd s.queue
      → (s' : State H) × (turn_with c s (some m) ≡ goes s')
        × (s'.delivered ≡ s.delivered ++ m ∷ [])
        × Marked s'
  unfolding turn_with on_delivery sent
  sent-Goes s m r f e =
      let (h, q) = d s.clock s.dest m s.delivered r f in
      rw q (
        next_from-Goes c
          (record s {
            dest = h;
            msg = none;
            delivered = s.delivered ++ m ∷ [];
            clock = suc s.clock;
          })
          s.backlog_in e)

  run_loop-ends :
      (rounds : ℕ) (s : State H)
      → IsValid s
      → s.delivered ++ pending s ≡ total
      → rel s.delivered s.dest
      → Marked s
      → length total < rounds + length s.delivered
      → (s' : State H) × (run_loop c rounds s ≡ (ended, s'))
  unfolding turn
  run_loop-ends zero s i l r k less =
      absurd (omega (arith, ap length l, length-append s.delivered (pending s)))
  run_loop-ends (suc rounds) s i l r k less = elim (Option-cases s.msg) [
    | inl e ↦ (s, loop-stops c rounds s s ended (ap (turn_with c s) e ∙ none-ends c s))
    | inr (m, e) ↦
        let f = current-fits c v fits rel tr total all s m e l in
        let (s', run, sent_m, k') = sent-Goes s m r f (marked s m e k) in
        let go = ap (turn_with c s) e ∙ run in
        let ((i', l'), r') = rw go at (turn-Keeps c v fits rel tr total all s s.msg refl i l r) in
        let (s'', rest) =
          run_loop-ends rounds s' i' l' r' k'
            (omega (arith, ap length sent_m, length-append s.delivered (m ∷ []))) in
        (s'', loop-goes c rounds s s' go ∙ rest)
  ]

first-pops : {H : Type 0} (s : State H) → HasEnd s.queue → Goes s (first_with s none)
unfolding first_with pop_next
first-pops s k = take_next-Goes s s.queue k

old_line-Goes :
    {H : Type 0} (c : Calls H) (s : State H) (line : Option Msg)
    → HasEnd s.queue
    → Goes s (first_message (old_line (at_line c s 0 line)))
unfolding first_message first_with old_line at_line pop_next
old_line-Goes c s none e = take_next-Goes _ s.queue e
old_line-Goes c s (some m) e = (_, refl, refl, inr e)

old_from-Goes :
    {H : Type 0} (c : Calls H) (s : State H) (b : Option ℕ)
    → s.msg ≡ none
    → ((p : ℕ) → b ≡ some p → p ≡ 0)
    → HasEnd s.queue
    → Goes s (first_message (old_from c s b))
unfolding old_from first_message pop_next read_line
old_from-Goes c s none e z k = subst (λ x. Goes s (first_with s x)) (sym e) (first-pops s k)
old_from-Goes c s (some p) e z k =
    subst (λ n. Goes s (first_message (old_line (read_line c s n)))) (sym (z p refl))
      (old_line-Goes c s _ k)

reads_from_start :
    {H : Type 0} (c : Calls H) (s : State H) (p : ℕ) → (open_read c s).backlog_in ≡ some p → p ≡ 0
unfolding open_read
reads_from_start c s p e = ground arith

start-Goes :
    {H : Type 0} (c : Calls H) (path : Option Msg) (h : H) (queue : List (Option Msg))
    (file : Option (List Msg))
    → HasEnd queue
    → let s = initial path h queue file in Goes s (first_message (old_backlog c s path))
unfolding old_backlog first_message open_read
start-Goes c none h queue file k = first-pops (initial none h queue file) k
start-Goes c (some path) h queue file k =
    let s = open_read c (initial (some path) h queue file) in
    old_from-Goes c s s.backlog_in refl (reads_from_start c (initial (some path) h queue file)) k

-- A logger with a destination that every message that fits can be delivered to, and with files that
-- work, ends behind the reader's mark: with one round more than there are messages in the old backlog
-- and in the queue before the mark, these are sent, in order, and nothing else; and the relation that a
-- delivery keeps between the destination and what was sent holds. The conditions are messages that fit,
-- a destination of which the relation holds, the mark in the queue, and no backlog where no file is
-- named.
pub run-ends :
    {H : Type 0} (c : Calls H) (fits : Msg → Type 0) (rel : List Msg → H → Type 0) (rounds : ℕ)
    (l : Logger H) (h : H) (queue : List (Option Msg)) (file : Option (List Msg))
    → Healthy c
    → Tracks fits rel c
    → Delivers fits rel c
    → l.dest ≡ some h
    → rel [] h
    → AllFit fits (content file ++ until_end queue)
    → (l.backlog_file ≡ none → content file ≡ [])
    → HasEnd queue
    → length (content file ++ until_end queue) < rounds
    → (s : State H) × (run c rounds l queue file ≡ some (ended, s))
      × (s.delivered ≡ content file ++ until_end queue)
      × rel s.delivered s.dest
unfolding run after_start
run-ends c fits rel rounds l h queue file v tr d dest r all n e less =
    let total = content file ++ until_end queue in
    let (s, go, fresh, k) = start-Goes c l.backlog_file h queue file e in
    let (i, kept) = rw go at (start-Keeps c v l.backlog_file h queue file n) in
    let r' = rw go at (start-Tracked c rel l.backlog_file h queue file r) in
    let (s', run_s) =
      run_loop-ends c v fits rel tr d total all rounds s i kept r' k
        (omega (arith, ap length fresh)) in
    let (all_sent, related) =
      rw run_s at (run_loop-Kept c v fits rel tr total all rounds s i kept r') in
    (
      s',
      rw (dest, run) (ap (λ t. some (after_start c rounds t)) go ∙ ap some run_s),
      all_sent,
      related,
    )
