-- ===== src/Logger/Dest.antt =====
-- Between two deliveries the logger changes neither its destination nor what was delivered.
use genbuf.Prelude.{
  ℕ, zero, suc, ◌≡◌, inl, inr, Bool, true, false, Option, none, some, List, [], ◌∷◌, arith,
}
use genbuf.Logger.Moved.{queue_cases}
use genbuf.Logger.{
  Msg, Calls, State, Turn, goes, stops, tick, append_line, take_next, pop_next, open_read,
  opened_append, open_append, at_line, read_line, truncate_backlog, after_line, next_from, sent,
  Wrote, wrote_all, wrote_end, end_with, wrote_failed, wrote_waits, wrote_aborts, write_loop,
  write_open, write_backlog, after_write, retry, reopened, reopen, move_queue, behind, after_first,
  first_from, first_line, begin_backlog, put_first, put_open, new_backlog, first_failure,
  failed_from, unsent, Puts, puts_ok, puts_lost, puts_eof, old_line, old_from, old_backlog,
  first_with, first_message,
}

module _ {H : Type 0} where
  abbrev pub At : H → List Msg → State H → Type 0
  At h ds s = (s.dest ≡ h) × (s.delivered ≡ ds)

  abbrev pub AtTurn : H → List Msg → Turn H → Type 0
  AtTurn h ds (goes s) = At h ds s
  AtTurn h ds (stops e s) = At h ds s

  abbrev AtWrote : H → List Msg → Wrote H → Type 0
  AtWrote h ds (wrote_all s) = At h ds s
  AtWrote h ds (wrote_end s) = At h ds s
  AtWrote h ds (wrote_failed s) = At h ds s
  AtWrote h ds (wrote_waits s) = At h ds s
  AtWrote h ds (wrote_aborts s) = At h ds s

module _ {H : Type 0} (c : Calls H) (h : H) (ds : List Msg) where
  take_next-At : (s : State H) (q : List (Option Msg)) → At h ds s → AtTurn h ds (take_next s q)
  unfolding take_next
  take_next-At s [] a = a
  take_next-At s (x ∷ q) a = a

  pub sent-At : (s : State H) → At h ds s → AtTurn h ds (sent c s)
  unfolding sent next_from pop_next read_line at_line after_line truncate_backlog take_next
  sent-At s a = ground arith

  write_loop-At : (n : ℕ) (s : State H) → At h ds s → AtWrote h ds (write_loop c n s)
  unfolding write_loop
  write_loop-At zero s a = a
  write_loop-At (suc n) s a = elim (queue_cases s.queue) [
    | inl e ↦ rw (e, write_loop) a
    | inr (inl (q, e)) ↦ rw (e, write_loop) a
    | inr (inr (m, q, e)) ↦
        let kept = record s { queue = q; clock = suc s.clock } in
        let put = write_loop-At n (append_line kept m) a in
        let lost = write_loop-At n kept a in rw (e, write_loop) (ground arith)
  ]

  end_with-At : (s : State H) (b : Bool) → At h ds s → AtTurn h ds (end_with s b)
  unfolding end_with
  end_with-At s true a = a
  end_with-At s false a = a

  after_write-At :
      (next : State H → Turn H) (r : Wrote H)
      → ((s : State H) → At h ds s → AtTurn h ds (next s))
      → AtWrote h ds r
      → AtTurn h ds (after_write c next r)
  unfolding after_write
  after_write-At next (wrote_all s) f a = f s a
  after_write-At next (wrote_end s) f a = end_with-At s s.backlog_out a
  after_write-At next (wrote_failed s) f a =
      let shut = f (record s { backlog_out = false; clock = suc s.clock }) a in
      let open_still = f (tick s) a in ground arith
  after_write-At next (wrote_waits s) f a = a
  after_write-At next (wrote_aborts s) f a = a

  write_open-At : (s : State H) (b : Bool) → At h ds s → AtWrote h ds (write_open c s b)
  unfolding write_open
  write_open-At s true a = write_loop-At (c.size s.clock) (tick s) a
  write_open-At s false a = a

  retry-At : (s : State H) → At h ds s → AtTurn h ds (retry c s)
  unfolding retry write_backlog
  retry-At s a =
      after_write-At goes (write_backlog c s) (λ s' a'. a') (write_open-At s s.backlog_out a)

  reopened-At : (s : State H) (b : Bool) → At h ds s → AtTurn h ds (reopened c s b)
  unfolding reopened
  reopened-At s true a = a
  reopened-At s false a = retry-At s a

  open_append-At : (s : State H) (b : Bool) → At h ds s → At h ds (opened_append s b)
  unfolding opened_append
  open_append-At s true a = a
  open_append-At s false a = a

  reopen-At : (s : State H) (path : Option Msg) → At h ds s → AtTurn h ds (reopen c s path)
  unfolding reopen open_append
  reopen-At s none a = a
  reopen-At s (some path) a =
      let s' = opened_append s (c.fopen_append s.clock) in
      reopened-At s' s'.backlog_out (open_append-At s (c.fopen_append s.clock) a)

  move_queue-At : (s : State H) (b : Bool) → At h ds s → AtTurn h ds (move_queue c s b)
  unfolding move_queue
  move_queue-At s true a = retry-At s a
  move_queue-At s false a = reopen-At s s.backlog_file a

  first_from-At : (s : State H) (b : Option ℕ) → At h ds s → AtTurn h ds (first_from c s b)
  unfolding first_from after_first read_line at_line
  first_from-At s b a = ground arith

  begin_backlog-At : (s : State H) → At h ds s → AtTurn h ds (begin_backlog c s)
  unfolding begin_backlog write_backlog first_line
  begin_backlog-At s a =
      after_write-At (first_line c) (write_backlog c (record s { msg = none }))
        (λ s' a'. first_from-At s' s'.backlog_in a')
        (write_open-At (record s { msg = none }) s.backlog_out a)

  put_first-At : (m : Msg) (s : State H) (r : Puts) → At h ds s → AtTurn h ds (put_first c m s r)
  unfolding put_first
  put_first-At m s puts_ok a = begin_backlog-At (append_line s m) a
  put_first-At m s puts_lost a = begin_backlog-At s a
  put_first-At m s puts_eof a = a

  put_open-At : (m : Msg) (s : State H) (b : Bool) → At h ds s → AtTurn h ds (put_open c m s b)
  unfolding put_open
  put_open-At m s true a = put_first-At m (tick s) (c.fputs s.clock) a
  put_open-At m s false a = a

  new_backlog-At :
      (m : Msg) (s : State H) (path : Option Msg) → At h ds s → AtTurn h ds (new_backlog c m s path)
  unfolding new_backlog open_append open_read
  new_backlog-At m s none a = a
  new_backlog-At m s (some path) a =
      let s' = opened_append s (c.fopen_append s.clock) in
      put_open-At m (open_read c s') s'.backlog_out (open_append-At s (c.fopen_append s.clock) a)

  failed_from-At :
      (m : Msg) (s : State H) (b : Option ℕ) → At h ds s → AtTurn h ds (failed_from c m s b)
  unfolding failed_from first_failure behind
  failed_from-At m s none a = new_backlog-At m s s.backlog_file a
  failed_from-At m s (some p) a = move_queue-At s s.backlog_out a

  pub unsent-At : (m : Msg) (s : State H) → At h ds s → AtTurn h ds (unsent c m s)
  unfolding unsent
  unsent-At m s a = failed_from-At m s s.backlog_in a

  pub first_message-At :
      (s : State H) (path : Option Msg)
      → At h ds s
      → AtTurn h ds (first_message (old_backlog c s path))
  unfolding first_message first_with old_backlog old_from old_line open_read read_line at_line
      pop_next take_next
  first_message-At s none a = ground arith
  first_message-At s (some path) a = ground arith
