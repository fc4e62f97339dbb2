-- ===== src/Output/Drivers.antt =====
-- src/output_file.c, output_tcp.c and output_udp.c: connect and disconnect of each kind of output.
-- Their calls of the kernel are the fields of `Files` and of `Net`.
pub mod Tcp
pub mod File
pub mod Cleanup
pub mod Unconnected
pub mod Prompt
use genbuf.Prelude.{ℕ, Bool, true, false, ◌||◌, ◌&&◌, Option, none, some, List, ◌==◌, if◌then◌else◌}
use genbuf.Sys.{Errno, ebadf, success, eagain, eisconn, einprogress, ealready}
use genbuf.NetTools.{Net, Address, net_get_socketaddr, net_create_socket}
use genbuf.Output.Command.{
  World, Run, ok, aborted, out_of_fuel, Cmd, pure, ◌>>=◌, ◌>>◌, tick, require,
}
use genbuf.Output.{
  OsState, os_disconnected, os_connecting, os_ready, os_sending, os_error, OutputHandler, Driver,
  init,
}

-- `open_file`, the call of open, is -1 with errno, or a descriptor; `close` is -1 with errno, or `none`.
pub data OpenResult : Type 0 where
  not_open : Errno → OpenResult
  opened : ℕ → OpenResult

pub record Files : Type 0 where
  pub open_file : ℕ → OpenResult
  pub close : ℕ → ℕ → Option Errno

abbrev pub is_stdout : Option ℕ → Bool
is_stdout none = false
is_stdout (some fd) = fd == 1

abbrev is_disconnected : OsState → Bool
is_disconnected os_disconnected = true
is_disconnected _ = false

-- the states in which disconnect may be called
abbrev pub can_disconnect : OsState → Bool
can_disconnect os_connecting = true
can_disconnect os_ready = true
can_disconnect os_error = true
can_disconnect _ = false

unfoldable pub file_opened : OutputHandler → OpenResult → OutputHandler
file_opened h (not_open e) = record h { fd = none; err = e }
file_opened h (opened fd) = record h { fd = some fd; state = os_ready }

unfoldable pub file_connect : Files → OutputHandler → Cmd OutputHandler
file_connect files h = do
  require (is_disconnected h.state)
  if is_stdout h.fd then pure (record h { state = os_ready }) else λ w.
      ok (file_opened h (files.open_file w.clock)) (tick w)

-- close() of the descriptor -1 is a call too, which fails.
abbrev pub close_fd : (ℕ → ℕ → Option Errno) → Option ℕ → Cmd (Option Errno)
close_fd close none w = ok (some ebadf) (tick w)
close_fd close (some fd) w = ok (close w.clock fd) (tick w)

unfoldable pub file_closed : OutputHandler → Option Errno → OutputHandler
file_closed h (some e) = record h { fd = none; err = e }
file_closed h none = record h { fd = none; state = os_disconnected }

-- For the standard output the program ends, by exit(1).
unfoldable pub file_disconnect : Files → OutputHandler → Cmd OutputHandler
file_disconnect files h = do
  require (can_disconnect h.state)
  if is_stdout h.fd
      then (λ w. aborted)
      else (do r ← close_fd files.close h.fd; pure (file_closed h r))

abbrev pub file_driver : Files → Driver
file_driver files = record { connect = file_connect files; disconnect = file_disconnect files }

-- what connect() and the switch over errno come to
unfoldable pub connected : OutputHandler → Option Errno → OutputHandler
connected h none = record h { state = os_ready }
connected h (some eisconn) = record h { err = eisconn; state = os_ready }
connected h (some eagain) = record h { err = eagain; state = os_connecting }
connected h (some einprogress) = record h { err = einprogress; state = os_connecting }
connected h (some ealready) = record h { err = ealready; state = os_connecting }
connected h (some e) = record h { err = e; state = os_error }

-- The states in which connect may be called: disconnected without a descriptor, and connecting with
-- one.
abbrev can_connect : OsState → Option ℕ → Bool
can_connect os_disconnected none = true
can_connect os_connecting (some fd) = true
can_connect _ _ = false

unfoldable pub resolved : Net → ℕ → OutputHandler → Option Address → Cmd OutputHandler
resolved net fd h none w = ok (record h { err = net.errno w.clock; state = os_error }) w
resolved net fd h (some addr) w = ok (connected h (net.connect w.clock fd)) (tick w)

-- A handler that connects already has a descriptor, which can_connect has tested.
unfoldable pub tcp_socket : Net → OsState → Option ℕ → Cmd ℕ
tcp_socket net os_disconnected fd = net_create_socket net
tcp_socket net _ none = λ w. aborted
tcp_socket net _ (some fd) = pure fd

-- output_tcp_connect; output_udp_connect is the same code for another kind of socket
unfoldable pub tcp_connect : Net → List ℕ → OutputHandler → Cmd OutputHandler
tcp_connect net res h = do
  require (can_connect h.state h.fd)
  fd ← tcp_socket net h.state h.fd
  addr ← net_get_socketaddr net res
  resolved net fd (record h { fd = some fd }) addr

unfoldable pub tcp_closed : OutputHandler → Option Errno → OutputHandler
tcp_closed h none = record h { state = os_disconnected; fd = none }
tcp_closed h (some e) = record h { state = os_disconnected; fd = none; err = e }

-- output_tcp_disconnect and output_udp_disconnect
unfoldable pub tcp_disconnect : Net → OutputHandler → Cmd OutputHandler
tcp_disconnect net h = do
  require (can_disconnect h.state)
  r ← close_fd net.close h.fd
  pure (tcp_closed h r)

abbrev pub tcp_driver : Net → List ℕ → Driver
tcp_driver net res = record { connect = tcp_connect net res; disconnect = tcp_disconnect net }

-- output_tcp_timeout, which gives up the connection
unfoldable pub tcp_timeout : Net → OutputHandler → Cmd OutputHandler
tcp_timeout net h = tcp_disconnect net h

-- The UDP output has the code of the TCP output, for another kind of socket.
abbrev pub udp_connect : Net → List ℕ → OutputHandler → Cmd OutputHandler
udp_connect net res h = tcp_connect net res h

abbrev pub udp_disconnect : Net → OutputHandler → Cmd OutputHandler
udp_disconnect net h = tcp_disconnect net h

abbrev pub udp_driver : Net → List ℕ → Driver
udp_driver net res = record { connect = udp_connect net res; disconnect = udp_disconnect net }

-- The members of the unix output are stubs.
unfoldable pub unix_connect : OutputHandler → Cmd OutputHandler
unix_connect h = pure h

unfoldable pub unix_disconnect : OutputHandler → Cmd OutputHandler
unix_disconnect h = pure h

-- the result of its write, 0, and of its cleanup, which frees nothing
unfoldable pub unix_write : OutputHandler → List ℕ → Bool
unix_write h msg = false

unfoldable pub unix_cleanup : OutputHandler → Bool
unix_cleanup h = false

abbrev pub unix_driver : Driver
unix_driver = record { connect = unix_connect; disconnect = unix_disconnect }
