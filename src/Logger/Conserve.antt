-- ===== src/Logger/Conserve.antt =====
-- The loop of the logger with files that work: every message is sent in order, none is lost and none
-- is sent twice.
use genbuf.Prelude.{
  ℕ, suc, ◌≤◌, ◌≡◌, ◌≢◌, refl, sym, ap, ap₂, ◌∙◌, Bool, true, false, inl, inr, ◌⊎◌, subst, Option,
  none, some, List, [], ◌∷◌, ◌++◌, append_assoc, arith, length, length-append, drop, get_elem?,
  some-injective,
}
use genbuf.Logger.{
  Msg, Calls, State, Stop, Turn, goes, stops, content, Wrote, wrote_all, wrote_end, end_with,
  wrote_failed, wrote_waits, wrote_aborts, write_backlog, take_next, next_from, opened_append,
  reopened, reopen, retry, move_queue, first_from, put_open, new_backlog, failed_from, pop_next,
  open_read, open_append, at_line, read_line, empty_file, truncate_backlog, after_line, sent,
  after_write, behind, after_first, first_line, begin_backlog, put_first, first_failure, unsent,
  on_delivery,
}
use genbuf.Logger.Order.{
  until_end, list_of, unread, saved, held, pending, Healthy, IsValid, Keeps, drop-get_elem?,
  drop-get_elem?-none,
}
use genbuf.Logger.Moved.{AtPlace, Left, Moved, write_backlog-Moved}

some-ne-none : {a : ℕ} → some a ≢ none
some-ne-none e = cc

get_elem?-head : (xs : List Msg) → get_elem? xs 0 ≡ none → 1 ≤ length xs → ⊥
get_elem?-head [] e k = omega arith
get_elem?-head (x ∷ xs) e k = cc

pub Turn-cases :
    {H : Type 0} (t : Turn H)
    → ((s : State H) × (t ≡ goes s)) ⊎ ((e : Stop) × (s : State H) × (t ≡ stops e s))
Turn-cases (goes s) = inl (s, refl)
Turn-cases (stops e s) = inr (e, s, refl)

module _ {H : Type 0} (c : Calls H) (v : Healthy c) (total : List Msg) where
  pub take_next-Keeps :
      (s : State H) (q : List (Option Msg))
      → s.backlog_in ≡ none
      → content s.file ≡ []
      → s.backlog_out ≡ false
      → s.delivered ++ until_end q ≡ total
      → Keeps total (take_next s q)
  unfolding take_next
  take_next-Keeps s [] shut empty off l = rw shut l
  take_next-Keeps s (none ∷ q) shut empty off l =
      (record { closed = λ _. (empty, off); within = λ p e. absurd (cc) }, l)
  take_next-Keeps s (some m ∷ q) shut empty off l =
      (record { closed = λ _. (empty, off); within = λ p e. absurd (cc) }, rw shut l)

  -- a truncated file is empty
  empty-content : (file : Option (List Msg)) → content (empty_file file) ≡ []
  empty-content none = refl
  empty-content (some lines) = refl

  -- the end of the backlog: it is truncated, and the next message is taken from the queue
  truncate_backlog-Keeps :
      (s : State H)
      → s.delivered ++ until_end s.queue ≡ total
      → Keeps total (pop_next (truncate_backlog c s))
  unfolding pop_next truncate_backlog
  truncate_backlog-Keeps s l =
      take_next-Keeps (truncate_backlog c s) s.queue refl
        (rw (v.truncates s.clock) (empty-content s.file)) refl l

  at_line-Keeps :
      (s : State H) (p : ℕ) (line : Option Msg)
      → get_elem? (content s.file) p ≡ line
      → s.delivered ++ (drop p (content s.file) ++ until_end s.queue) ≡ total
      → Keeps total (after_line c (at_line c s p line))
  unfolding after_line at_line
  at_line-Keeps s p none e l =
      truncate_backlog-Keeps (record s { msg = c.at_eof s.clock; clock = suc s.clock })
        (rw (drop-get_elem?-none p (content s.file) e) at l)
  at_line-Keeps s p (some m) e l =
      let (q, le) = drop-get_elem? p (content s.file) m e in
      (
        record {
          closed = λ shut. absurd (cc);
          within = λ p' e'. omega (arith, some-injective _ _ e');
        },
        rw q at l,
      )

  pub lines-at :
      (s : State H) (p : ℕ) → read_line c s p ≡ at_line c s p (get_elem? (content s.file) p)
  unfolding read_line
  lines-at s p = rw (v.lines s.clock) refl

  sent-Keeps :
      (s : State H) (b : Option ℕ)
      → s.backlog_in ≡ b
      → IsValid s
      → s.delivered ++ (saved s ++ until_end s.queue) ≡ total
      → Keeps total (next_from c s b)
  unfolding next_from pop_next
  sent-Keeps s none e i l =
      let (empty, off) = i.closed e in take_next-Keeps s s.queue e empty off (rw e at l)
  sent-Keeps s (some p) e i l =
      rw (lines-at s p) (at_line-Keeps s p (get_elem? (content s.file) p) refl (rw e at l))

  pub pending-at :
      (s : State H) (x : Option Msg)
      → s.msg ≡ x
      → s.delivered ++ pending s ≡ s.delivered ++ elim x [ none ↦ [] | some _ ↦ held s ]
  pending-at s x e = ap (λ y. s.delivered ++ elim y [ none ↦ [] | some _ ↦ held s ]) e

  goes-Keeps :
      (s : State H) (m : Msg) → s.msg ≡ some m → IsValid s → Left total s → Keeps total (goes s)
  goes-Keeps s m e i l = (i, pending-at s (some m) e ∙ l)

  AtPlace-IsValid : (p k : ℕ) (s : State H) → AtPlace p k s → IsValid s
  AtPlace-IsValid p k s a = record {
    closed = λ shut. absurd (some-ne-none (sym a.place ∙ shut));
    within = λ p' e. omega (arith, some-injective _ _ (sym a.place ∙ e), a.before, a.long);
  }

  -- behind a write of the queue to the backlog, with a current message
  after_write-Keeps :
      (p k : ℕ) (m : Msg) (r : Wrote H)
      → Moved p k total (some m) r
      → Keeps total (after_write c goes r)
  unfolding after_write end_with
  after_write-Keeps p k m (wrote_all s) (a, e, l) = goes-Keeps s m e (AtPlace-IsValid p k s a) l
  after_write-Keeps p k m (wrote_end s) (shut, l) = rw (shut, end_with) l
  after_write-Keeps p k m (wrote_waits s) l = l
  after_write-Keeps p k m (wrote_failed s) l = absurd l
  after_write-Keeps p k m (wrote_aborts s) l = absurd l

  reopen-Keeps :
      (s : State H) (m : Msg) (path : Option Msg)
      → s.msg ≡ some m
      → ((p : ℕ) × (s.backlog_in ≡ some p))
      → IsValid s
      → Left total s
      → Keeps total (reopen c s path)
  unfolding reopen reopened open_append opened_append
  reopen-Keeps s m none e at i l = goes-Keeps s m e i l
  reopen-Keeps s m (some path) e (p, at) i l = rw (v.appends s.clock) (
      goes-Keeps
        (record s { backlog_out = true; file = some (content s.file); clock = suc s.clock }) m e
        (record { closed = λ shut. absurd (some-ne-none (sym at ∙ shut)); within = i.within }) l)

  move_queue-Keeps :
      (s : State H) (m : Msg) (p : ℕ) (b : Bool)
      → s.backlog_out ≡ b
      → s.msg ≡ some m
      → s.backlog_in ≡ some p
      → IsValid s
      → Left total s
      → Keeps total (move_queue c s b)
  unfolding move_queue retry
  move_queue-Keeps s m p true out e at i l =
      let place : AtPlace p p s = record {
        place = at;
        before = omega arith;
        long = i.within p at;
        open_out = out;
      } in
      after_write-Keeps p p m (write_backlog c s) (
        subst (λ x. Moved p p total x (write_backlog c s)) e
          (write_backlog-Moved c p p total s v place l))
  move_queue-Keeps s m p false out e at i l = reopen-Keeps s m s.backlog_file e (p, at) i l

  first_at-Keeps :
      (s : State H) (line : Option Msg)
      → get_elem? (content s.file) 0 ≡ line
      → 1 ≤ length (content s.file)
      → s.delivered ++ (content s.file ++ until_end s.queue) ≡ total
      → Keeps total (after_first c (at_line c s 0 line))
  unfolding after_first at_line
  first_at-Keeps s none e k l = absurd (get_elem?-head (content s.file) e k)
  first_at-Keeps s (some m) e k l =
      let (q, le) = drop-get_elem? 0 (content s.file) m e in
      (
        record {
          closed = λ shut. absurd (cc);
          within = λ p' e'. omega (arith, some-injective _ _ e');
        },
        (ap (λ xs. s.delivered ++ (xs ++ until_end s.queue)) (sym q)) ∙ l,
      )

  first_line-Keeps :
      (s : State H) → AtPlace 0 1 s → s.msg ≡ none → Left total s → Keeps total (first_line c s)
  unfolding first_line first_from
  first_line-Keeps s a e l =
      let shown =
        ap₂ (λ x b. s.delivered ++ (list_of x ++ (unread b (content s.file) ++ until_end s.queue)))
          e a.place in
      subst (λ b. Keeps total (first_from c s b)) (sym a.place)
        (subst (λ t. Keeps total (after_first c t)) (sym (lines-at s 0))
          (first_at-Keeps s (get_elem? (content s.file) 0) refl a.long (sym shown ∙ l)))

  begun-Keeps :
      (r : Wrote H) → Moved 0 1 total none r → Keeps total (after_write c (first_line c) r)
  unfolding after_write end_with
  begun-Keeps (wrote_all s) (a, e, l) = first_line-Keeps s a e l
  begun-Keeps (wrote_end s) (shut, l) = rw (shut, end_with) l
  begun-Keeps (wrote_waits s) l = l
  begun-Keeps (wrote_failed s) l = absurd l
  begun-Keeps (wrote_aborts s) l = absurd l

  append-opens :
      (s : State H)
      → open_append c s
        ≡ record s { backlog_out = true; file = some (content s.file); clock = suc s.clock }
  unfolding open_append opened_append
  append-opens s = rw (v.appends s.clock) refl

  new_backlog-Keeps :
      (s : State H) (m : Msg) (path : Option Msg)
      → s.msg ≡ some m
      → s.backlog_in ≡ none
      → IsValid s
      → Left total s
      → Keeps total (new_backlog c m s path)
  unfolding new_backlog put_open open_read put_first begin_backlog
  new_backlog-Keeps s m none e shut i l = goes-Keeps s m e i l
  new_backlog-Keeps s m (some path) e shut i l =
      let (empty, off) = i.closed shut in
      let s' : State H = record s {
        msg = none;
        file = some (content s.file ++ m ∷ []);
        backlog_in = some 0;
        backlog_out = true;
        clock = suc (suc (suc s.clock));
      } in
      let place : AtPlace 0 1 s' = record {
        place = refl;
        before = omega arith;
        long = omega (arith, length-append (content s.file) (m ∷ []));
        open_out = refl;
      } in
      let left : Left total s' =
        ap (λ xs. s.delivered ++ ((xs ++ m ∷ []) ++ until_end s.queue)) empty
        ∙ (sym (
              ap₂
                (λ x b.
                  s.delivered ++ (list_of x ++ (unread b (content s.file) ++ until_end s.queue)))
                e shut)
            ∙ l) in
      subst (λ t. Keeps total (put_open c m (open_read c t) t.backlog_out)) (sym (append-opens s))
        (rw (v.reads (suc s.clock)) (
          rw (v.puts (suc (suc s.clock)))
            (begun-Keeps (write_backlog c s') (write_backlog-Moved c 0 1 total s' v place left))))

  unsent-Keeps :
      (s : State H) (m : Msg) (b : Option ℕ)
      → s.backlog_in ≡ b
      → s.msg ≡ some m
      → IsValid s
      → Left total s
      → Keeps total (failed_from c m s b)
  unfolding failed_from behind first_failure
  unsent-Keeps s m none at e i l = new_backlog-Keeps s m s.backlog_file e at i l
  unsent-Keeps s m (some p) at e i l = move_queue-Keeps s m p s.backlog_out refl e at i l

  pub on_delivery-Keeps :
      (s : State H) (m : Msg) (b : Bool) (h : H)
      → s.msg ≡ some m
      → IsValid s
      → Left total s
      → Keeps total (on_delivery c m s (some (b, h)))
  unfolding on_delivery sent unsent
  on_delivery-Keeps s m true h e i l =
      sent-Keeps
        (record s { dest = h; msg = none; delivered = s.delivered ++ m ∷ []; clock = suc s.clock })
        s.backlog_in refl (record { closed = i.closed; within = i.within })
        (append_assoc s.delivered (m ∷ []) (saved s ++ until_end s.queue)
          ∙ (sym (ap (λ x. s.delivered ++ (list_of x ++ (saved s ++ until_end s.queue))) e) ∙ l))
  on_delivery-Keeps s m false h e i l =
      unsent-Keeps (record s { dest = h; clock = suc s.clock }) m s.backlog_in refl e
        (record { closed = i.closed; within = i.within }) l
