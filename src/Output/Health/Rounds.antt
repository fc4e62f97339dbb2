-- ===== src/Output/Health/Rounds.antt =====
-- The steps of a round of deliver_message, and the end of the loop over rounds.
use genbuf.Prelude.{
  ℕ, suc, ◌-◌, ◌≡◌, ◌≢◌, refl, Bool, true, false, List, [], ◌∷◌, arith, if◌then◌else◌, Bool-cases,
  inl, inr,
}
use genbuf.Output.Command.{World, Run, ok, aborted, out_of_fuel}
use genbuf.Output.{
  Env, active, OutputHandler, OsState, os_disconnected, os_error, can_write, Driver, Delivery,
  Round, finished, again, fd_isset, fd_set, reset_error, try_write, act, after_select,
  connect_first, round, deliver_loop,
}
use genbuf.Output.Contract.{Selects, Quiet, IsDriver}

pub OsState-discrete : Discrete OsState
OsState-discrete = hlevel

pub reset_error-keeps :
    (drv : Driver) (d : Delivery) (w : World)
    → d.handler.state ≢ os_error
    → reset_error drv d w ≡ ok (again d) w
unfolding reset_error
reset_error-keeps drv d w q = ground arith

pub reset_error-disconnects :
    (drv : Driver) (d : Delivery) (w : World) (h : OutputHandler) (w' : World)
    → d.handler.state ≡ os_error
    → drv.disconnect d.handler w ≡ ok h w'
    → reset_error drv d w ≡ ok (again (record d { handler = h; retry = d.retry - 1 })) w'
unfolding reset_error
reset_error-disconnects drv d w h w' q run = ground arith

pub act-writes :
    (env : Env) (drv : Driver) (msg : List ℕ) (d : Delivery) (w : World)
    → can_write d.handler.state ≡ true
    → act env drv msg d w ≡ try_write env drv msg d w
unfolding act
act-writes env drv msg d w can = ground arith

pub connect_first-Quiet :
    (inv : OutputHandler → Type 0) (drv : Driver) (h : OutputHandler) (w : World)
    → IsDriver inv drv
    → inv h
    → Quiet inv w (connect_first drv h w)
unfolding connect_first
connect_first-Quiet inv drv h w v fd = elim (OsState-discrete h.state os_disconnected) [
  | yes q ↦ let (h', w', run, same, fd') = v.connects h w fd q in (h', w', ground arith, same, fd')
  | no q ↦ (h, w, ground arith, refl, fd)
]

-- the rest of the loop behind a round
unfoldable pub after_round : Env → Driver → List ℕ → ℕ → Run Round → Run (Bool × OutputHandler)
after_round env drv msg rounds aborted = aborted
after_round env drv msg rounds out_of_fuel = out_of_fuel
after_round env drv msg rounds (ok (finished done h) w) = ok (done, h) w
after_round env drv msg rounds (ok (again d) w) = deliver_loop env drv msg rounds d w

pub deliver_round :
    (env : Env) (drv : Driver) (msg : List ℕ) (rounds : ℕ) (d : Delivery) (w : World)
    → d.retry ≢ 0
    → deliver_loop env drv msg (suc rounds) d w
      ≡ after_round env drv msg rounds (round env drv msg d w)
unfolding deliver_loop after_round
deliver_round env drv msg rounds d w k = ground arith

pub deliver_spent :
    (env : Env) (drv : Driver) (msg : List ℕ) (rounds : ℕ) (d : Delivery) (w : World)
    → d.retry ≡ 0
    → deliver_loop env drv msg (suc rounds) d w ≡ ok (false, d.handler) w
unfolding deliver_loop
deliver_spent env drv msg rounds d w z = ground arith

-- what is known where select() reports activity
pub heard :
    (env : Env) (drv : Driver) (inv : OutputHandler → Type 0) (h : OutputHandler) (old : List ℕ)
    (t : ℕ)
    → Selects env
    → IsDriver inv drv
    → inv h
    → let fds = fd_set h.fd old in
      let r = env.select t (if can_write h.state then fds else []) in
      (ready : List ℕ)
      → r ≡ active ready
      → (can_write h.state ≡ true) × (fd_isset h.fd (after_select (can_write h.state) fds r) ≡ true)
unfolding after_select
heard env drv inv h old t s v fd ready q = elim (Bool-cases (can_write h.state)) [
  | inl can ↦
      let (n, at) = v.has_fd h fd can in
      let q' : env.select t (n ∷ old) ≡ active ready = rw (can, at) at q in
      (can, rw (can, at) (rw q' (s.reports t n old ready q')))
  | inr cannot ↦ absurd (s.idle t ready (rw cannot at q))
]
