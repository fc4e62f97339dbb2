-- ===== src/Output/Health.antt =====
-- `deliver_message` where the destination takes what is written: it returns, and it sends the whole
-- message or no byte of it.
pub mod Rounds
use genbuf.Prelude.{
  ◌⊎◌, ℕ, zero, suc, ◌-◌, ◌<◌, ◌≡◌, ◌≢◌, refl, ◌∙◌, Bool, true, false, List, [], ◌∷◌, ◌++◌, arith,
  length, if◌then◌else◌, Bool-cases, inl, inr, subst, some,
}
use native.Mathlib.Decide.{ℕ_discrete}
use genbuf.Output.Command.{World, Run, ok, aborted, out_of_fuel, tick, ◌>>=◌}
use genbuf.Output.{
  Env, SelectResult, select_failed, timed_out, active, OutputHandler, OsState, os_disconnected,
  os_error, can_write, ends_line, Driver, Delivery, Round, finished, again, fd_isset, fd_set,
  select, reset_error, try_write, act, on_select, after_select, connect_first, round, deliver_loop,
  deliver_message, first_delivery,
}
use genbuf.Output.Write.Chunks.{Obeys, Accepts}
use genbuf.Output.Write.Whole.{common_write-whole}
use genbuf.Output.Contract.{Selects, Quiet, IsDriver}
use genbuf.Output.Health.Rounds.{
  OsState-discrete, reset_error-keeps, reset_error-disconnects, act-writes, connect_first-Quiet,
  after_round, deliver_round, deliver_spent, heard,
}

module _ (env : Env) (drv : Driver) (o : Obeys env) (a : Accepts env) (s : Selects env)
    (inv : OutputHandler → Type 0) (v : IsDriver inv drv) (msg : List ℕ)
    (line : ends_line msg ≡ true) (nz : length msg ≢ 0) where
  -- what a round comes to, with some tries left
  data Ends (before : List ℕ) (retry : ℕ) (r : Run Round) : Type 0 where
    sent_all :
        (h : OutputHandler) (w' : World)
        → r ≡ ok (finished true h) w'
        → w'.sent ≡ before ++ msg
        → Ends before retry r
    gave_up :
        (h : OutputHandler) (w' : World)
        → r ≡ ok (finished false h) w'
        → w'.sent ≡ before
        → Ends before retry r
    goes_on :
        (d : Delivery) (w' : World)
        → r ≡ ok (again d) w'
        → w'.sent ≡ before
        → d.todo ≡ length msg
        → d.retry < retry
        → inv d.handler
        → Ends before retry r

  reset_error-Ends :
      (d : Delivery) (w : World) (retry : ℕ)
      → d.todo ≡ length msg
      → d.retry < retry
      → inv d.handler
      → Ends w.sent retry (reset_error drv d w)
  reset_error-Ends d w retry e lt fd = elim (OsState-discrete d.handler.state os_error) [
    | yes q ↦
        let (h, w', run, same, fd') = v.disconnects d.handler w fd q in
        goes_on (record d { handler = h; retry = d.retry - 1 }) w'
          (reset_error-disconnects drv d w h w' q run) same e (omega arith) fd'
    | no q ↦ goes_on d w (reset_error-keeps drv d w q) refl e lt fd
  ]

  write-Ends :
      (d : Delivery) (w : World) (retry : ℕ)
      → d.todo ≡ length msg
      → can_write d.handler.state ≡ true
      → fd_isset d.handler.fd d.fds ≡ true
      → Ends w.sent retry (try_write env drv msg d w)
  unfolding try_write
  write-Ends d w retry e can set =
      let (r, w', run, done, sent) = common_write-whole env d.handler msg w o a can line nz in
      sent_all r.handler w' (rw (set, e, try_write) (rw (run, ◌>>=◌) (rw done))) sent

  act-Ends :
      (d : Delivery) (w : World) (retry : ℕ)
      → d.todo ≡ length msg
      → can_write d.handler.state ≡ true
      → fd_isset d.handler.fd d.fds ≡ true
      → Ends w.sent retry (act env drv msg d w)
  act-Ends d w retry e can set =
      rw (act-writes env drv msg d w can) (write-Ends d w retry e can set)

  on_select-Ends :
      (d : Delivery) (w : World) (retry : ℕ) (r : SelectResult)
      → d.todo ≡ length msg
      → d.retry ≡ retry
      → retry ≢ 0
      → inv d.handler
      → ((ready : List ℕ)
          → r ≡ active ready
          → (can_write d.handler.state ≡ true) × (fd_isset d.handler.fd d.fds ≡ true))
      → Ends w.sent retry (on_select env drv msg d r w)
  unfolding on_select
  on_select-Ends d w retry select_failed e q k fd g = gave_up d.handler w refl refl
  on_select-Ends d w retry timed_out e q k fd g =
      reset_error-Ends (record d { retry = d.retry - 1 }) w retry e (omega arith) fd
  on_select-Ends d w retry (active ready) e q k fd g =
      act-Ends d w retry e (g ready refl).0 (g ready refl).1

  -- one round, with some tries left
  round-Ends :
      (d : Delivery) (w : World)
      → d.todo ≡ length msg
      → d.retry ≢ 0
      → inv d.handler
      → Ends w.sent d.retry (round env drv msg d w)
  unfolding round select
  round-Ends d w e k fd =
      let (h, w', run, same, fd') = connect_first-Quiet inv drv d.handler w v fd in
      let fds = fd_set h.fd d.fds in
      let r = env.select w'.clock (if can_write h.state then fds else []) in
      let d' = record d { handler = h; fds = after_select (can_write h.state) fds r } in
      rw (run, ◌>>=◌)
        (subst (λ before. Ends before d.retry (on_select env drv msg d' r (tick w'))) same
          (on_select-Ends d' (tick w') d.retry r e refl k fd'
            (heard env drv inv h d.fds w'.clock s v fd')))

  -- What the caller gets: the result, and what was sent.
  abbrev pub AllOrNothing : World → Run (Bool × OutputHandler) → Type 0
  AllOrNothing w r =
      (done : Bool) × (h : OutputHandler) × (w' : World) × (r ≡ ok (done, h) w')
      × (w'.sent ≡ (if done then w.sent ++ msg else w.sent))

  deliver_loop-returns :
      (rounds : ℕ) (d : Delivery) (w : World)
      → d.todo ≡ length msg
      → d.retry < rounds
      → inv d.handler
      → AllOrNothing w (deliver_loop env drv msg rounds d w)
  unfolding after_round
  deliver_loop-returns zero d w e lt fd = absurd (omega arith)
  deliver_loop-returns (suc rounds) d w e lt fd = elim (ℕ_discrete d.retry 0) [
    | yes z ↦ (false, d.handler, w, deliver_spent env drv msg rounds d w z, refl)
    | no k ↦ elim (round-Ends d w e k fd) [
      | sent_all h w' run sent ↦
          (true, h, w', deliver_round env drv msg rounds d w k ∙ rw (run, after_round), sent)
      | gave_up h w' run same ↦
          (false, h, w', deliver_round env drv msg rounds d w k ∙ rw (run, after_round), same)
      | goes_on d' w' run same e' less fd' ↦
          let (done, h, w'', rest, sent) = deliver_loop-returns rounds d' w' e' (omega arith) fd' in
          (
            done,
            h,
            w'',
            deliver_round env drv msg rounds d w k ∙ rw (run, after_round) rest,
            rw (← same) sent,
          )
    ]
  ]

-- Where write() always takes a byte at least and no more than it is given, deliver_message of a line
-- returns in four rounds at most: it sends the whole message and returns 1, or it sends no byte and
-- returns 0. The other conditions are that the output is a driver with an invariant that holds of the
-- handler, that the handler has three tries, and that select() reports no descriptor that is not
-- waited for, and the handler's where it reports any.
pub deliver_message-returns :
    (env : Env) (drv : Driver) (inv : OutputHandler → Type 0) (h : OutputHandler) (msg : List ℕ)
    (w : World)
    → Obeys env
    → Accepts env
    → Selects env
    → IsDriver inv drv
    → ends_line msg ≡ true
    → length msg ≢ 0
    → h.retry ≡ 3
    → inv h
    → (done : Bool) × (h' : OutputHandler) × (w' : World) × (deliver_message env drv 4 h msg w
        ≡ ok (done, h') w')
      × (w'.sent ≡ (if done then w.sent ++ msg else w.sent))
unfolding deliver_message
deliver_message-returns env drv inv h msg w o a s v line nz three fd =
    deliver_loop-returns env drv o a s inv v msg line nz 4 (first_delivery h msg) w refl
      (omega arith) fd
