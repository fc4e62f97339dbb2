-- ===== src/Output/Prompt.antt =====
-- `deliver_message` where the destination is ready each time: one round sends the message.
use genbuf.Prelude.{
  ℕ, suc, ◌≡◌, ◌≢◌, refl, sym, ap, ◌∙◌, true, List, [], ◌∷◌, ◌++◌, arith, length, if◌then◌else◌,
  inl, inr, ◌⊎◌,
}
use genbuf.Output.Command.{World, Run, ok, tick, ◌>>=◌}
use genbuf.Output.{
  Env, active, OutputHandler, os_disconnected, can_write, ends_line, Driver, Delivery, Round,
  finished, fd_isset, fd_set, select, try_write, act, on_select, after_select, connect_first, round,
  deliver_message, first_delivery,
}
use genbuf.Output.Write.{common_write-Sends}
use genbuf.Output.Write.Chunks.{Obeys, Accepts}
use genbuf.Output.Write.Whole.{common_write-whole}
use genbuf.Output.Health.Rounds.{act-writes, heard, after_round, deliver_round}
use genbuf.Output.Contract.{Selects, IsDriver}

-- The destination takes connections at once, and is ready for bytes whenever it is waited for.
pub record IsPrompt (inv : OutputHandler → Type 0) (env : Env) (drv : Driver) : Type 0 where
  pub wakes :
      (t fd : ℕ) (fds : List ℕ) → (ready : List ℕ) × (env.select t (fd ∷ fds) ≡ active ready)
  pub connects :
      (h : OutputHandler) (w : World)
      → inv h
      → h.state ≡ os_disconnected
      → (h' : OutputHandler) × (w' : World) × (drv.connect h w ≡ ok h' w')
        × (w'.sent ≡ w.sent)
        × inv h'
        × (can_write h'.state ≡ true)

-- the handler is connected, or is not yet
abbrev pub IsOpen : (OutputHandler → Type 0) → OutputHandler → Type 0
IsOpen inv h = inv h × ((can_write h.state ≡ true) ⊎ (h.state ≡ os_disconnected))

same_result :
    {A : Type 0} {r : Run A} {a b : A} {w w' : World}
    → r ≡ ok a w
    → r ≡ ok b w'
    → (a ≡ b) × (w ≡ w')
same_result p q = (cc, cc)

module _ (env : Env) (drv : Driver) (inv : OutputHandler → Type 0) (o : Obeys env) (a : Accepts env)
    (s : Selects env) (v : IsDriver inv drv) (prompt : IsPrompt inv env drv) (msg : List ℕ)
    (line : ends_line msg ≡ true) (nz : length msg ≢ 0) where
  -- the message is sent, and the handler can write further ones
  abbrev Sent : World → Run Round → Type 0
  Sent w r =
      (h : OutputHandler) × (w' : World) × (r ≡ ok (finished true h) w')
      × (w'.sent ≡ w.sent ++ msg)
      × IsOpen inv h

  connected :
      (h : OutputHandler) (w : World)
      → IsOpen inv h
      → (h' : OutputHandler) × (w' : World) × (connect_first drv h w ≡ ok h' w')
        × (w'.sent ≡ w.sent)
        × inv h'
        × (can_write h'.state ≡ true)
  unfolding connect_first
  connected h w (i, inl can) = (h, w, ground arith, refl, i, can)
  connected h w (i, inr gone) =
      let (h', w', run, same, i', can) = prompt.connects h w i gone in
      (h', w', ground arith, same, i', can)

  writes :
      (d : Delivery) (w : World)
      → d.todo ≡ length msg
      → inv d.handler
      → can_write d.handler.state ≡ true
      → fd_isset d.handler.fd d.fds ≡ true
      → Sent w (act env drv msg d w)
  unfolding try_write
  writes d w e i can set =
      let (r, w', run, done, sent) = common_write-whole env d.handler msg w o a can line nz in
      let t = common_write-Sends env d.handler msg (length msg) w o can line (omega arith) nz in
      let (same, _) = same_result run t.ends in
      let up : can_write r.handler.state ≡ true =
        ap can_write
          (ap (λ x. x.handler.state) same ∙ t.ready (ap (λ x. x.done) (sym same) ∙ done)) in
      (
        r.handler,
        w',
        act-writes env drv msg d w can ∙ rw (set, e, try_write) (rw (run, ◌>>=◌) (rw done refl)),
        sent,
        (
          v.writes d.handler r.handler i can (ap (λ x. x.handler.fd) same ∙ t.fd)
              (ap (λ x. x.handler.retry) same ∙ t.retry) (inl up),
          inl up,
        ),
      )

  round_sends :
      (d : Delivery) (w : World)
      → d.todo ≡ length msg
      → IsOpen inv d.handler
      → Sent w (round env drv msg d w)
  unfolding round select on_select
  round_sends d w e i =
      let (h, w', run, same, i', can) = connected d.handler w i in
      let (fd, at) = v.has_fd h i' can in
      let (ready, woken) = prompt.wakes w'.clock fd d.fds in
      let fds = fd_set h.fd d.fds in
      let r = env.select w'.clock (if can_write h.state then fds else []) in
      let is_active : r ≡ active ready = rw (can, at) woken in
      let set = (heard env drv inv h d.fds w'.clock s v i' ready is_active).1 in
      let d' = record d { handler = h; fds = after_select (can_write h.state) fds r } in
      let (h'', w'', done, sent, up) = writes d' (tick w') e i' can set in
      (
        h'',
        w'',
        rw (run, ◌>>=◌) (ap (λ x. on_select env drv msg d' x (tick w')) is_active ∙ done),
        sent ∙ ap (λ xs. xs ++ msg) same,
        up,
      )

-- Where write() always takes a byte at least and no more than it is given, and the destination takes
-- connections at once and is ready whenever it is waited for, deliver_message of a line sends the whole
-- message in its first round, returns 1, and leaves a handler that is connected. The other conditions
-- are that the output is a driver with an invariant that holds of the handler, which is connected or
-- not yet, that select() reports no descriptor that is not waited for, and the handler's where it
-- reports any, and that the handler has a try.
pub deliver_message-sends :
    (env : Env) (drv : Driver) (inv : OutputHandler → Type 0) (rounds : ℕ) (h : OutputHandler)
    (msg : List ℕ) (w : World)
    → Obeys env
    → Accepts env
    → Selects env
    → IsDriver inv drv
    → IsPrompt inv env drv
    → ends_line msg ≡ true
    → length msg ≢ 0
    → h.retry ≢ 0
    → IsOpen inv h
    → (h' : OutputHandler) × (w' : World) × (deliver_message env drv (suc rounds) h msg w
        ≡ ok (true, h') w')
      × (w'.sent ≡ w.sent ++ msg)
      × IsOpen inv h'
unfolding deliver_message after_round
deliver_message-sends env drv inv rounds h msg w o a s v prompt line nz k i =
    let (h', w', run, sent, up) =
      round_sends env drv inv o a s v prompt msg line nz (first_delivery h msg) w refl i in
    (
      h',
      w',
      deliver_round env drv msg rounds (first_delivery h msg) w k ∙ rw (run, after_round) refl,
      sent,
      up,
    )
