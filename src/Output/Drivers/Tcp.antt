-- ===== src/Output/Drivers/Tcp.antt =====
-- The TCP output, and the UDP output with the same code: that they are drivers as deliver_message
-- relies on.
use genbuf.Prelude.{
  ◌⊎◌, inl, inr, ℕ, suc, ◌≡◌, ◌≢◌, refl, ◌∙◌, true, Option, none, some, List, arith,
}
use genbuf.Sys.{Errno}
use genbuf.NetTools.{
  Net, Host, Address, net_get_socketaddr, net_create_socket, lookup, resolve, host_address,
  parse_resource_spec,
}
use genbuf.Output.Command.{World, ok, ◌>>=◌, tick}
use genbuf.Output.{OsState, os_disconnected, os_error, OutputHandler, can_write}
use genbuf.Output.Contract.{Quiet, IsDriver}
use genbuf.Output.Drivers.{
  connected, resolved, tcp_socket, tcp_connect, tcp_closed, tcp_disconnect, tcp_driver,
}

-- What the Fatal tests of the source require: socket() and setsockopt() succeed. The host is known
-- too, since a lookup without an answer is a null pointer that is read through.
pub record Serves (net : Net) : Type 0 where
  pub sockets : (t : ℕ) → (fd : ℕ) × (net.socket t ≡ some fd)
  pub options : (t fd : ℕ) → net.setsockopt t fd ≡ true
  pub hosts : (t : ℕ) (ip : List ℕ) → (host : Host) × (net.gethostbyname2 t ip ≡ some host)

-- A handler has a descriptor exactly when it is not disconnected.
abbrev pub HasFd : OutputHandler → Type 0
HasFd h =
    (h.state ≡ os_disconnected → h.fd ≡ none)
    × (h.state ≢ os_disconnected → (fd : ℕ) × (h.fd ≡ some fd))

-- and it has three tries
abbrev pub TcpInv : OutputHandler → Type 0
TcpInv h =
    (h.state ≡ os_disconnected → h.fd ≡ none)
    × (h.state ≢ os_disconnected → (fd : ℕ) × (h.fd ≡ some fd))
    × (h.retry ≡ 3)

connected_lem :
    (h : OutputHandler) (r : Option Errno)
    → ((connected h r).state ≢ os_disconnected)
      × ((connected h r).fd ≡ h.fd)
      × ((connected h r).retry ≡ h.retry)
unfolding connected
connected_lem h r = ground arith

resolved_lem :
    (net : Net) (fd : ℕ) (h : OutputHandler) (a : Option Address) (w : World)
    → (h' : OutputHandler) × (w' : World) × (resolved net fd h a w ≡ ok h' w')
      × (w'.sent ≡ w.sent)
      × (h'.state ≢ os_disconnected)
      × (h'.fd ≡ h.fd)
      × (h'.retry ≡ h.retry)
unfolding resolved
resolved_lem net fd h none w = (_, _, refl, refl, ground arith, refl, refl)
resolved_lem net fd h (some a) w = (
  connected h (net.connect w.clock fd),
  tick w,
  refl,
  refl,
  (connected_lem h (net.connect w.clock fd)).0,
  (connected_lem h (net.connect w.clock fd)).1,
  (connected_lem h (net.connect w.clock fd)).2,
)

pub net_create_socket_lem :
    (net : Net) (w : World)
    → Serves net
    → (fd : ℕ) × (net.socket w.clock ≡ some fd) × (net_create_socket net w ≡ ok fd (tick (tick w)))
unfolding net_create_socket
net_create_socket_lem net w s =
    let (fd, q) = s.sockets w.clock in
    (fd, q, rw (q, net_create_socket) (rw (s.options (suc w.clock) fd) refl))

resolve_lem :
    (net : Net) (ip : List ℕ) (port : ℕ) (w : World)
    → Serves net
    → (a : Option Address) × (w' : World) × (resolve net ip port w ≡ ok a w') × (w'.sent ≡ w.sent)
unfolding resolve
resolve_lem net ip port w s =
    let (host, q) = s.hosts w.clock ip in
    (host_address port host, tick w, rw (q, resolve) refl, refl)

lookup_lem :
    (net : Net) (r : Option (Option (List ℕ) × ℕ)) (w : World)
    → Serves net
    → (a : Option Address) × (w' : World) × (lookup net r w ≡ ok a w') × (w'.sent ≡ w.sent)
unfolding lookup
lookup_lem net none w s = (none, w, refl, refl)
lookup_lem net (some (none, port)) w s = (_, w, refl, refl)
lookup_lem net (some (some ip, port)) w s = resolve_lem net ip port w s

tcp_connect-Quiet :
    (net : Net) (res : List ℕ) (h : OutputHandler) (w : World)
    → Serves net
    → TcpInv h
    → h.state ≡ os_disconnected
    → Quiet TcpInv w (tcp_connect net res h w)
unfolding tcp_connect tcp_socket net_get_socketaddr
tcp_connect-Quiet net res h w s (closed, open_fd, three) down =
    let (fd, _, made) = net_create_socket_lem net w s in
    let (a, w1, found, same) = lookup_lem net (parse_resource_spec net res) (tick (tick w)) s in
    let (h', w2, run, same', up, fd', tries) =
      resolved_lem net fd (record h { state = os_disconnected; fd = some fd }) a w1 in
    (
      h',
      w2,
      rw (down, closed down) (rw (made, ◌>>=◌) (rw (found, ◌>>=◌) run)),
      same' ∙ same,
      (λ q. absurd (up q), λ q. (fd, fd'), tries ∙ three),
    )

tcp_closed_lem : (h : OutputHandler) (r : Option Errno) → h.retry ≡ 3 → TcpInv (tcp_closed h r)
unfolding tcp_closed
tcp_closed_lem h none three = (λ q. refl, λ q. absurd (q refl), three)
tcp_closed_lem h (some e) three = (λ q. refl, λ q. absurd (q refl), three)

tcp_disconnect-Quiet :
    (net : Net) (h : OutputHandler) (w : World)
    → TcpInv h
    → h.state ≡ os_error
    → Quiet TcpInv w (tcp_disconnect net h w)
unfolding tcp_disconnect
tcp_disconnect-Quiet net h w (closed, open_fd, three) broken =
    let (fd, q) = open_fd (ground arith) in
    (
      tcp_closed h (net.close w.clock fd),
      tick w,
      rw (broken, q) refl,
      refl,
      tcp_closed_lem h (net.close w.clock fd) three,
    )

can_write-up : (s : OsState) → can_write s ≡ true → s ≢ os_disconnected
can_write-up s q = ground arith

written-TcpInv :
    (h h' : OutputHandler)
    → TcpInv h
    → can_write h.state ≡ true
    → h'.fd ≡ h.fd
    → h'.retry ≡ h.retry
    → (can_write h'.state ≡ true) ⊎ (h'.state ≡ os_error)
    → TcpInv h'
written-TcpInv h h' i can same tries state =
    let (fd, q) = i.1 (can_write-up h.state can) in
    (
      λ down. absurd (elim state [ inl k ↦ can_write-up h'.state k down | inr e ↦ ground arith ]),
      λ up. (fd, same ∙ q),
      tries ∙ i.2,
    )

-- Where the calls that the source takes to be fatal succeed, and each host name has an answer, the
-- TCP and UDP outputs are drivers: a connect of a disconnected handler and a disconnect of a handler
-- in the error state end, send no byte, and keep the invariant that a handler has a descriptor
-- exactly when it is not disconnected and has three tries, as a write does too.
pub tcp-IsDriver : (net : Net) (res : List ℕ) → Serves net → IsDriver TcpInv (tcp_driver net res)
tcp-IsDriver net res s = record {
  has_fd = λ h i can. i.1 (can_write-up h.state can);
  writes = λ h h' i can same tries state. written-TcpInv h h' i can same tries state;
  connects = λ h w i down. tcp_connect-Quiet net res h w s i down;
  disconnects = λ h w i broken. tcp_disconnect-Quiet net h w i broken;
}
