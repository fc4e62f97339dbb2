-- ===== src/Output/Drivers/Unconnected.antt =====
-- deliver_message on an output whose connect does nothing, as that of the unix output.
use genbuf.Prelude.{
  ℕ, zero, suc, ◌-◌, ◌≡◌, ◌⊎◌, inl, inr, ◌<◌, ap, refl, ◌∙◌, false, List, [], arith, none,
}
use genbuf.Output.Command.{World, ok, tick, ◌>>=◌}
use genbuf.Output.{
  Env, SelectResult, active, timed_out, select_failed, OutputHandler, os_disconnected, Delivery,
  finished, again, select, on_select, after_select, reset_error, connect_first, round, deliver_loop,
  deliver_message, first_delivery,
}
use genbuf.Output.Health.Rounds.{after_round, deliver_round, deliver_spent}
use genbuf.Output.Contract.{Selects}
use genbuf.Output.Drivers.{unix_driver, unix_connect}

-- a handler as the unix output makes it
abbrev pub Unconnected : OutputHandler → Type 0
Unconnected h = (h.state ≡ os_disconnected) × (h.fd ≡ none)

unix_first : (h : OutputHandler) (w : World) → connect_first unix_driver h w ≡ ok h w
unfolding connect_first unix_connect
unix_first h w = ground arith

module _ (env : Env) (s : Selects env) (msg : List ℕ) where
  -- a round is a select() that waits for no descriptor
  idle_round :
      (d : Delivery) (w : World)
      → Unconnected d.handler
      → round env unix_driver msg d w
        ≡ on_select env unix_driver msg d (env.select w.clock []) (tick w)
  unfolding round select after_select
  idle_round d w (down, shut) = rw (unix_first d.handler w, ◌>>=◌) (rw (down, shut) refl)

  idle_on_select :
      (d : Delivery) (w : World) (t : ℕ) (r : SelectResult)
      → Unconnected d.handler
      → env.select t [] ≡ r
      → (on_select env unix_driver msg d r w ≡ ok (finished false d.handler) w)
        ⊎ (on_select env unix_driver msg d r w ≡ ok (again (record d { retry = d.retry - 1 })) w)
  unfolding on_select reset_error
  idle_on_select d w t select_failed i e = inl refl
  idle_on_select d w t timed_out (down, _) e = inr (ground arith)
  idle_on_select d w t (active ready) i e = absurd (s.idle t ready e)

  silent_loop :
      (tries rounds : ℕ) (d : Delivery) (w : World)
      → Unconnected d.handler
      → d.retry ≡ tries
      → tries < rounds
      → (w' : World) × (deliver_loop env unix_driver msg rounds d w ≡ ok (false, d.handler) w')
        × (w'.sent ≡ w.sent)
  unfolding after_round
  silent_loop tries zero d w i e k = absurd (omega arith)
  silent_loop zero (suc rounds) d w i e k =
      (w, deliver_spent env unix_driver msg rounds d w e, refl)
  silent_loop (suc tries) (suc rounds) d w i e k =
      let start =
        deliver_round env unix_driver msg rounds d w (omega arith)
        ∙ ap (after_round env unix_driver msg rounds) (idle_round d w i) in
      elim (idle_on_select d (tick w) w.clock (env.select w.clock []) i refl) [
        | inl failed ↦ (tick w, start ∙ ap (after_round env unix_driver msg rounds) failed, refl)
        | inr timeout ↦
            let (w', run, same) =
              silent_loop tries rounds (record d { retry = d.retry - 1 }) (tick w) i (omega arith)
                (omega arith) in
            (w', start ∙ (ap (after_round env unix_driver msg rounds) timeout ∙ run), same)
      ]

-- deliver_message on a new handler of the unix output returns 0 and sends no byte, in one round more
-- than the handler has tries. The condition is that select() reports no descriptor where it waits for
-- none.
pub unix-Unconnected :
    (env : Env) (rounds : ℕ) (h : OutputHandler) (msg : List ℕ) (w : World)
    → Selects env
    → Unconnected h
    → h.retry < rounds
    → (w' : World) × (deliver_message env unix_driver rounds h msg w ≡ ok (false, h) w')
      × (w'.sent ≡ w.sent)
unfolding deliver_message
unix-Unconnected env rounds h msg w s i k =
    silent_loop env s msg h.retry rounds (first_delivery h msg) w i refl k
