-- ===== src/Output/Drivers/Cleanup.antt =====
-- output_handler_common_cleanup of a TCP or UDP output, by the state in which it finds the handler.
use genbuf.Prelude.{ℕ, ◌≡◌, ◌≢◌, refl, true, Option, none, some, List, arith}
use genbuf.Sys.{Errno}
use genbuf.NetTools.{Net}
use genbuf.Output.Command.{World, Run, ok, aborted, tick}
use genbuf.Output.{
  OsState, os_disconnected, os_connecting, os_ready, os_sending, os_error, OutputHandler, Driver,
  common_cleanup,
}
use genbuf.Output.Drivers.{tcp_closed, tcp_disconnect, tcp_driver, can_disconnect}
use genbuf.Output.Drivers.Tcp.{HasFd}

-- the handler is left without a connection
abbrev pub Gone : World → Run OutputHandler → Type 0
Gone w r =
    (h : OutputHandler) × (w' : World) × (r ≡ ok h w')
    × (w'.sent ≡ w.sent)
    × (h.state ≡ os_disconnected)
    × (h.fd ≡ none)

closed_Gone :
    (h : OutputHandler) (r : Option Errno) (w : World) → Gone w (ok (tcp_closed h r) (tick w))
unfolding tcp_closed
closed_Gone h none w = (_, _, refl, refl, refl, refl)
closed_Gone h (some e) w = (_, _, refl, refl, refl, refl)

disconnect_Gone :
    (net : Net) (h : OutputHandler) (w : World)
    → can_disconnect h.state ≡ true
    → h.state ≢ os_disconnected
    → HasFd h
    → Gone w (tcp_disconnect net h w)
unfolding tcp_disconnect tcp_closed
disconnect_Gone net h w can up i =
    let (fd, q) = i.1 up in rw (can, q) (closed_Gone h (net.close w.clock fd) w)

-- what a cleanup comes to in a state
abbrev Cleaned : Driver → OutputHandler → World → OsState → Type 0
Cleaned drv h w s =
    (s ≢ os_sending → Gone w (common_cleanup drv h w))
    × (s ≡ os_sending → common_cleanup drv h w ≡ aborted)

-- a state from which disconnect is called and may be
closes :
    (net : Net) (res : List ℕ) (h : OutputHandler) (w : World)
    → HasFd h
    → can_disconnect h.state ≡ true
    → Gone w (common_cleanup (tcp_driver net res) h w)
unfolding common_cleanup
closes net res h w i can =
    let up : h.state ≢ os_disconnected = λ q. ground arith in
    let (h', w', run, same, down, closed) = disconnect_Gone net h w can up i in
    (h', w', ground (arith, run), same, down, closed)

by_state :
    (net : Net) (res : List ℕ) (h : OutputHandler) (w : World) (s : OsState)
    → h.state ≡ s
    → HasFd h
    → Cleaned (tcp_driver net res) h w s
unfolding common_cleanup tcp_disconnect
by_state net res h w os_disconnected e i =
    (λ k. (h, w, rw e refl, refl, e, i.0 e), λ q. absurd (ground arith))
by_state net res h w os_connecting e i =
    (λ k. closes net res h w i (rw e refl), λ q. absurd (ground arith))
by_state net res h w os_ready e i =
    (λ k. closes net res h w i (rw e refl), λ q. absurd (ground arith))
by_state net res h w os_sending e i = (λ k. absurd (k refl), λ q. rw e refl)
by_state net res h w os_error e i =
    (λ k. closes net res h w i (rw e refl), λ q. absurd (ground arith))

-- The cleanup of a TCP or UDP output ends with a handler that is disconnected and has no descriptor,
-- in each state but that behind a write that was left off: from os_sending it aborts. The condition
-- is that the handler has a descriptor exactly when it is not disconnected.
pub common_cleanup_lem :
    (net : Net) (res : List ℕ) (h : OutputHandler) (w : World)
    → HasFd h
    → (h.state ≢ os_sending → Gone w (common_cleanup (tcp_driver net res) h w))
      × (h.state ≡ os_sending → common_cleanup (tcp_driver net res) h w ≡ aborted)
common_cleanup_lem net res h w i = by_state net res h w h.state refl i
