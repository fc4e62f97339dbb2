-- ===== src/Output/Contract.antt =====
-- What deliver_message of src/output.c relies on: select(), and the members `connect` and
-- `disconnect` of an output.
use genbuf.Prelude.{◌⊎◌, ℕ, ◌≡◌, ◌≢◌, true, List, [], ◌∷◌, some}
use genbuf.Output.Command.{World, Run, ok}
use genbuf.Output.{
  Env, active, OutputHandler, os_disconnected, os_error, can_write, Driver, fd_isset,
}

-- select() that waits for no descriptor reports none; else the descriptor of the handler, the only
-- one of the set that is open, is among those that it reports.
pub record Selects (env : Env) : Type 0 where
  pub idle : (t : ℕ) (ready : List ℕ) → env.select t [] ≢ active ready
  pub reports :
      (t fd : ℕ) (fds ready : List ℕ)
      → env.select t (fd ∷ fds) ≡ active ready
      → fd_isset (some fd) ready ≡ true

-- A run that ends without an abort and sends nothing, with a handler of which `inv` holds.
abbrev pub Quiet : (OutputHandler → Type 0) → World → Run OutputHandler → Type 0
Quiet inv w r = (h : OutputHandler) × (w' : World) × (r ≡ ok h w') × (w'.sent ≡ w.sent) × inv h

-- What deliver_message relies on in a kind of output: an invariant `inv` of its handlers that
-- connect and disconnect keep, where they are called in the states that they are meant for, and so
-- does a write.
pub record IsDriver (inv : OutputHandler → Type 0) (drv : Driver) : Type 0 where
  pub has_fd : (h : OutputHandler) → inv h → can_write h.state ≡ true → (fd : ℕ) × (h.fd ≡ some fd)
  pub writes :
      (h h' : OutputHandler)
      → inv h
      → can_write h.state ≡ true
      → h'.fd ≡ h.fd
      → h'.retry ≡ h.retry
      → (can_write h'.state ≡ true) ⊎ (h'.state ≡ os_error)
      → inv h'
  pub connects :
      (h : OutputHandler) (w : World)
      → inv h
      → h.state ≡ os_disconnected
      → Quiet inv w (drv.connect h w)
  pub disconnects :
      (h : OutputHandler) (w : World)
      → inv h
      → h.state ≡ os_error
      → Quiet inv w (drv.disconnect h w)
