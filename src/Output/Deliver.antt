-- ===== src/Output/Deliver.antt =====
-- `deliver_message` whatever write() answers: it does not abort, and what it sends is the message from
-- its first byte on.
use genbuf.Prelude.{
  ℕ, zero, suc, ◌+◌, ◌-◌, ◌≤◌, ◌≡◌, ◌≢◌, refl, sym, ap, ◌∙◌, Bool, true, false, Bool-cases, inl,
  inr, ◌⊎◌, subst, List, [], ◌++◌, append_assoc, append-nil, arith, length, if◌then◌else◌,
}
use native.Mathlib.Decide.{ℕ_discrete}
use genbuf.Output.Command.{World, Run, ok, out_of_fuel, tick, ◌>>=◌}
use genbuf.Output.{
  Env, SelectResult, select_failed, timed_out, active, OutputHandler, os_error, os_sending,
  can_write, ends_line, chunk, Driver, Delivery, Round, finished, again, fd_isset, fd_set, select,
  reset_error, try_write, act, on_select, after_select, round, deliver_loop, deliver_message,
  first_delivery,
}
use genbuf.Output.Write.{common_write-Sends}
use genbuf.Output.Write.Chunks.{Obeys, chunk_split}
use genbuf.Output.Health.Rounds.{
  OsState-discrete, reset_error-keeps, reset_error-disconnects, act-writes, connect_first-Quiet,
  heard, after_round, deliver_round, deliver_spent,
}
use genbuf.Output.Contract.{Selects, IsDriver}

-- The run goes on for longer than the rounds, or it ends without an abort; then the first `k` bytes of
-- the message are sent, all of them where the result is 1, and the handler is as `inv` says.
abbrev pub Prefix : (OutputHandler → Type 0) → List ℕ → List ℕ → Run (Bool × OutputHandler) → Type 0
Prefix inv msg before r =
    (r ≡ out_of_fuel)
    ⊎ ((done : Bool) × (h : OutputHandler) × (w : World) × (k : ℕ) × (r ≡ ok (done, h) w)
        × inv h
        × (k ≤ length msg)
        × (w.sent ≡ before ++ chunk msg (length msg) k)
        × (done ≡ true → k ≡ length msg))

unfinished :
    (h : OutputHandler)
    → (h.state ≡ os_sending) ⊎ (h.state ≡ os_error)
    → (can_write h.state ≡ true) ⊎ (h.state ≡ os_error)
unfinished h (inl q) = inl (rw q refl)
unfinished h (inr q) = inr q

module _ (env : Env) (drv : Driver) (o : Obeys env) (s : Selects env) (inv : OutputHandler → Type 0)
    (v : IsDriver inv drv) (msg : List ℕ) (line : ends_line msg ≡ true) where
  -- the first `k` bytes are sent
  abbrev Sent : List ℕ → ℕ → World → Type 0
  Sent before k w = w.sent ≡ before ++ chunk msg (length msg) k

  abbrev Left : List ℕ → Delivery → World → Type 0
  Left before d w =
      (d.todo ≢ 0) × (d.todo ≤ length msg) × Sent before (length msg - d.todo) w × inv d.handler

  data Out (before : List ℕ) (r : Run Round) : Type 0 where
    stops :
        (done : Bool) (h : OutputHandler) (w' : World) (k : ℕ)
        → r ≡ ok (finished done h) w'
        → k ≤ length msg
        → Sent before k w'
        → ((done ≡ true) → k ≡ length msg)
        → inv h
        → Out before r
    goes : (d : Delivery) (w' : World) → r ≡ ok (again d) w' → Left before d w' → Out before r

  reset_error-Out :
      (before : List ℕ) (d : Delivery) (w : World)
      → Left before d w
      → Out before (reset_error drv d w)
  reset_error-Out before d w (nz, le, sent, i) = elim (OsState-discrete d.handler.state os_error) [
    | yes q ↦
        let (h, w', run, same, i') = v.disconnects d.handler w i q in
        goes (record d { handler = h; retry = d.retry - 1 }) w'
          (reset_error-disconnects drv d w h w' q run) (nz, le, same ∙ sent, i')
    | no q ↦ goes d w (reset_error-keeps drv d w q) (nz, le, sent, i)
  ]

  more_sent :
      (before : List ℕ) (todo left : ℕ) (w w' : World)
      → todo ≤ length msg
      → left ≤ todo
      → Sent before (length msg - todo) w
      → w'.sent ≡ w.sent ++ chunk msg todo (todo - left)
      → Sent before (length msg - left) w'
  more_sent before todo left w w' le less sent now =
      let a = length msg - todo in
      let b = todo - left in
      let e1 : length msg - a ≡ todo = omega arith in
      let e2 : a + b ≡ length msg - left = omega arith in
      let joined : chunk msg (length msg) a ++ chunk msg todo b
          ≡ chunk msg (length msg) (length msg - left) =
        rw (e1, e2) at (chunk_split msg (length msg) a b (omega arith) (omega arith)) in
      now
      ∙ (ap (λ l. l ++ chunk msg todo b) sent
          ∙ (append_assoc before (chunk msg (length msg) a) (chunk msg todo b)
              ∙ ap (◌++◌ before) joined))

  try_write-Out :
      (before : List ℕ) (d : Delivery) (w : World)
      → Left before d w
      → can_write d.handler.state ≡ true
      → fd_isset d.handler.fd d.fds ≡ true
      → Out before (try_write env drv msg d w)
  unfolding try_write
  try_write-Out before d w (nz, le, sent, i) can set =
      let t = common_write-Sends env d.handler msg d.todo w o can line le nz in
      let now = more_sent before d.todo t.result.todo w t.world le t.left sent t.sent in
      elim (Bool-cases t.result.done) [
        | inl yes_done ↦
            stops true t.result.handler t.world (length msg - t.result.todo)
              (rw (set, try_write) (rw (t.ends, ◌>>=◌) (rw yes_done))) (omega arith) now
              (λ _. omega (arith, t.whole.0 yes_done))
              (v.writes d.handler t.result.handler i can t.fd t.retry
                (inl (rw (t.ready yes_done) refl)))
        | inr not_done ↦
            let d' = record d { handler = t.result.handler; todo = t.result.todo; retry = 3 } in
            let up = unfinished t.result.handler (t.unfinished not_done) in
            let rest = reset_error-Out before d' t.world (
              λ z. absurd (ground (arith, t.whole.1 z)),
              omega (arith, t.left),
              now,
              v.writes d.handler t.result.handler i can t.fd t.retry up,
            ) in
            subst (Out before) (sym (rw (set, try_write) (rw (t.ends, ◌>>=◌) (rw not_done refl))))
              rest
      ]

  act-Out :
      (before : List ℕ) (d : Delivery) (w : World)
      → Left before d w
      → can_write d.handler.state ≡ true
      → fd_isset d.handler.fd d.fds ≡ true
      → Out before (act env drv msg d w)
  act-Out before d w l can set =
      rw (act-writes env drv msg d w can) (try_write-Out before d w l can set)

  on_select-Out :
      (before : List ℕ) (d : Delivery) (w : World) (r : SelectResult)
      → Left before d w
      → ((ready : List ℕ)
          → r ≡ active ready
          → (can_write d.handler.state ≡ true) × (fd_isset d.handler.fd d.fds ≡ true))
      → Out before (on_select env drv msg d r w)
  unfolding on_select
  on_select-Out before d w select_failed (nz, le, sent, i) g =
      stops false d.handler w (length msg - d.todo) refl (omega arith) sent (λ q. absurd (cc)) i
  on_select-Out before d w timed_out l g =
      reset_error-Out before (record d { retry = d.retry - 1 }) w l
  on_select-Out before d w (active ready) l g =
      act-Out before d w l (g ready refl).0 (g ready refl).1

  round-Out :
      (before : List ℕ) (d : Delivery) (w : World)
      → Left before d w
      → Out before (round env drv msg d w)
  unfolding round select
  round-Out before d w (nz, le, sent, i) =
      let (h, w', run, same, i') = connect_first-Quiet inv drv d.handler w v i in
      let fds = fd_set h.fd d.fds in
      let r = env.select w'.clock (if can_write h.state then fds else []) in
      let d' = record d { handler = h; fds = after_select (can_write h.state) fds r } in
      rw (run, ◌>>=◌)
        (on_select-Out before d' (tick w') r (nz, le, same ∙ sent, i')
          (heard env drv inv h d.fds w'.clock s v i'))

  deliver_loop-Prefix :
      (before : List ℕ) (rounds : ℕ) (d : Delivery) (w : World)
      → Left before d w
      → Prefix inv msg before (deliver_loop env drv msg rounds d w)
  unfolding after_round deliver_loop
  deliver_loop-Prefix before zero d w l = inl refl
  deliver_loop-Prefix before (suc rounds) d w l = elim (ℕ_discrete d.retry 0) [
    | yes z ↦ inr (
      false,
      d.handler,
      w,
      length msg - d.todo,
      deliver_spent env drv msg rounds d w z,
      l.3,
      omega arith,
      l.2,
      λ q. absurd (cc),
    )
    | no k ↦ elim (round-Out before d w l) [
      | stops done h w' n run le sent whole i ↦ inr (
        done,
        h,
        w',
        n,
        deliver_round env drv msg rounds d w k ∙ rw (run, after_round),
        i,
        le,
        sent,
        whole,
      )
      | goes d' w' run l' ↦
          subst (Prefix inv msg before)
            (sym (deliver_round env drv msg rounds d w k ∙ rw (run, after_round)))
            (deliver_loop-Prefix before rounds d' w' l')
    ]
  ]

-- Whatever write() answers, of no more bytes than it is given, deliver_message of a line does not abort,
-- however many rounds it is given. Where it returns, the bytes sent since are the first ones of the
-- message, in order and each once, over all connections together, and all of them where the result
-- is 1; and the output's invariant holds of the handler. The other conditions are that the output is a
-- driver with an invariant that holds of the handler, and that select() reports no descriptor that is
-- not waited for, and the handler's where it reports any.
pub deliver_message-Prefix :
    (env : Env) (drv : Driver) (inv : OutputHandler → Type 0) (rounds : ℕ) (h : OutputHandler)
    (msg : List ℕ) (w : World)
    → Obeys env
    → Selects env
    → IsDriver inv drv
    → ends_line msg ≡ true
    → length msg ≢ 0
    → inv h
    → Prefix inv msg w.sent (deliver_message env drv rounds h msg w)
unfolding deliver_message chunk
deliver_message-Prefix env drv inv rounds h msg w o s v line nz i =
    let none_sent : length msg - length msg ≡ 0 = omega arith in
    deliver_loop-Prefix env drv o s inv v msg line w.sent rounds (first_delivery h msg) w
      (nz, omega arith, rw (none_sent, append-nil) refl, i)
