-- ===== src/Output/Stall.antt =====
-- `deliver_message` where the destination accepts connections and refuses every write: the count of
-- the tries left is set to 3 before each write, so that it never reaches 0.
use genbuf.Prelude.{
  ℕ, zero, suc, ◌≡◌, ◌≢◌, refl, ◌∙◌, true, false, List, [], ◌∷◌, arith, none, some,
}
use genbuf.Sys.{epipe}
use genbuf.Output.Command.{World, ok, out_of_fuel, tick, ◌>>=◌}
use genbuf.Output.{
  Env, active, write_failed, OutputHandler, os_disconnected, os_ready, os_error, ends_line, Driver,
  Delivery, again, check_errno, write_loop, written, fd_isset, select, try_write, on_select,
  after_select, connect_first, round, deliver_loop, deliver_message, common_write, first_delivery,
}
use genbuf.Output.Health.Rounds.{after_round, deliver_round, act-writes, reset_error-disconnects}

-- The destination accepts connections, is ready for bytes, and answers each write with EPIPE.
pub record Refuses (env : Env) (drv : Driver) (fd : ℕ) : Type 0 where
  pub is_active : (t : ℕ) (fds : List ℕ) → env.select t (fd ∷ fds) ≡ active (fd ∷ [])
  pub breaks : (t n : ℕ) → env.write t n ≡ write_failed epipe
  pub connects :
      (h : OutputHandler) (w : World)
      → h.state ≡ os_disconnected
      → h.fd ≡ none
      → (w' : World) × (drv.connect h w ≡ ok (record h { state = os_ready; fd = some fd }) w')
  pub disconnects :
      (h : OutputHandler) (w : World)
      → h.state ≡ os_error
      → h.fd ≡ some fd
      → (w' : World) × (drv.disconnect h w
          ≡ ok (record h { state = os_disconnected; fd = none }) w')

module _ (env : Env) (drv : Driver) (fd : ℕ) (f : Refuses env drv fd) (msg : List ℕ)
    (line : ends_line msg ≡ true) where
  broken_write :
      (h : OutputHandler) (todo : ℕ) (w : World)
      → h.state ≡ os_ready
      → common_write env h msg todo w
        ≡ ok (written false (record h { err = epipe; state = os_error }) todo) (tick w)
  unfolding common_write write_loop check_errno
  broken_write h todo w ready = ground (arith, f.breaks w.clock todo)

  abbrev connected : OutputHandler → OutputHandler
  connected h = record h { state = os_ready; fd = some fd }

  abbrev broken : OutputHandler → OutputHandler
  broken h = record (connected h) { err = epipe; state = os_error }

  stalled_write :
      (h : OutputHandler) (d : Delivery) (w : World)
      → d.handler ≡ connected h
      → d.fds ≡ fd ∷ []
      → (w' : World) × (try_write env drv msg d w
          ≡ ok
              (again (record d {
                handler = record (broken h) { state = os_disconnected; fd = none };
                retry = 2;
              }))
              w')
  unfolding try_write
  stalled_write h d w e set =
      let (w', gone) = f.disconnects (broken h) (tick w) refl refl in
      let isset : fd_isset d.handler.fd d.fds ≡ true = rw (e, set) (ground arith) in
      let run = broken_write (connected h) d.todo w refl in
      let run' : common_write env d.handler msg d.todo w
          ≡ ok (written false (broken h) d.todo) (tick w) =
        rw e run in
      (
        w',
        rw (isset, try_write)
            (rw (run', ◌>>=◌)
              (reset_error-disconnects drv (record d { handler = broken h; retry = 3 }) (tick w) _
                w' refl gone)),
      )

  -- a round brings the handler back to where it was, with two tries left
  stalled_round :
      (d : Delivery) (w : World)
      → d.handler.state ≡ os_disconnected
      → d.handler.fd ≡ none
      → (d' : Delivery) × (w' : World) × (round env drv msg d w ≡ ok (again d') w')
        × (d'.handler.state ≡ os_disconnected)
        × (d'.handler.fd ≡ none)
        × (d'.retry ≡ 2)
  unfolding round connect_first select on_select after_select
  stalled_round d w down shut =
      let h = d.handler in
      let (w1, up) = f.connects h w down shut in
      let first : connect_first drv h w ≡ ok (connected h) w1 = ground arith in
      let d1 = record d { handler = connected h; fds = fd ∷ [] } in
      let (w2, run) = stalled_write h d1 (tick w1) refl refl in
      (
        record d1 { handler = record (broken h) { state = os_disconnected; fd = none }; retry = 2 },
        w2,
        rw (first, ◌>>=◌)
            (rw (f.is_active w1.clock d.fds) (act-writes env drv msg d1 (tick w1) refl ∙ run)),
        refl,
        refl,
        refl,
      )

  deliver_zero : (d : Delivery) (w : World) → deliver_loop env drv msg zero d w ≡ out_of_fuel
  unfolding deliver_loop
  deliver_zero d w = refl

  stalled_loop :
      (rounds : ℕ) (d : Delivery) (w : World)
      → d.handler.state ≡ os_disconnected
      → d.handler.fd ≡ none
      → d.retry ≢ 0
      → deliver_loop env drv msg rounds d w ≡ out_of_fuel
  unfolding after_round
  stalled_loop zero d w down shut k = deliver_zero d w
  stalled_loop (suc rounds) d w down shut k =
      let (d', w', run, down', shut', two) = stalled_round d w down shut in
      deliver_round env drv msg rounds d w k
      ∙ rw (run, after_round) (stalled_loop rounds d' w' down' shut' (omega arith))

-- Where the destination accepts connections and answers each write with EPIPE, deliver_message of a
-- line never returns: it runs out of any number of rounds. The handler is disconnected at first and
-- has three tries.
pub deliver_message-stalls :
    (env : Env) (drv : Driver) (fd rounds : ℕ) (h : OutputHandler) (msg : List ℕ) (w : World)
    → Refuses env drv fd
    → ends_line msg ≡ true
    → h.state ≡ os_disconnected
    → h.fd ≡ none
    → h.retry ≡ 3
    → deliver_message env drv rounds h msg w ≡ out_of_fuel
unfolding deliver_message
deliver_message-stalls env drv fd rounds h msg w f line down shut three =
    stalled_loop env drv fd f msg line rounds (first_delivery h msg) w down shut (omega arith)
