-- ===== src/Output/Tests.antt =====
-- The output on a handler of a TCP destination, and its theorems there.
use genbuf.Prelude.{
  ap, ◌≤◌, ℕ, zero, suc, ◌≡◌, ◌≢◌, refl, List, [], ◌∷◌, ◌++◌, arith, none, some, true, false, Bool,
  if◌then◌else◌,
}
use genbuf.Sys.{epipe, success}
use genbuf.NetTools.{
  Net, net_create_socket, net_get_socketaddr, parse_resource_spec, whole_number, split_host, lookup,
}
use genbuf.Output.Command.{World, ok, aborted, out_of_fuel, tick}
use genbuf.Output.{
  Env, wrote, write_failed, WriteResult, timed_out, active, SelectResult, os_disconnected, os_ready,
  os_error, os_sending, OutputHandler, init, common_write, common_cleanup, deliver_message,
  ends_line,
}
use genbuf.Output.Write.{common_write-Sends}
use genbuf.Output.Write.Chunks.{Obeys, Sends, Accepts}
use genbuf.Output.Health.{deliver_message-returns}
use genbuf.Output.Contract.{Selects, IsDriver}
use genbuf.Output.Text
use genbuf.Output.Deliver.{Prefix, deliver_message-Prefix}
use genbuf.Output.Stall.{Refuses, deliver_message-stalls}
use genbuf.Output.Drivers.{
  Files, opened, unix_driver, file_driver, tcp_driver, tcp_connect, tcp_disconnect, tcp_closed,
  tcp_socket, connected, resolved,
}
use genbuf.Output.Drivers.Tcp.{Serves, HasFd, TcpInv, tcp-IsDriver}
use genbuf.Output.Drivers.File.{FileInv, file-IsDriver}
use genbuf.Output.Drivers.Unconnected.{unix-Unconnected}
use genbuf.Output.Drivers.Cleanup.{Gone, common_cleanup_lem}

-- write() takes two bytes of more, and one of one
abbrev at_most_two : ℕ → ℕ
at_most_two zero = 0
at_most_two (suc zero) = 1
at_most_two (suc (suc n)) = 2

at_most_two-bounded : (n : ℕ) → at_most_two n ≤ n
at_most_two-bounded zero = omega arith
at_most_two-bounded (suc zero) = omega arith
at_most_two-bounded (suc (suc n)) = omega arith

at_most_two-some : (n : ℕ) → n ≢ 0 → (k : ℕ) × (at_most_two n ≡ suc k)
at_most_two-some zero nz = absurd (nz refl)
at_most_two-some (suc zero) nz = (0, refl)
at_most_two-some (suc (suc n)) nz = (1, refl)

abbrev first_active : List ℕ → SelectResult
first_active [] = timed_out
first_active (fd ∷ fds) = active (fd ∷ [])

abbrev pub slow : Env
slow = record { write = λ t n. wrote (at_most_two n); select = λ t fds. first_active fds }

wrote-cong : {a b : ℕ} → wrote a ≡ wrote b → a ≡ b
wrote-cong q = cc

pub slow-Obeys : Obeys slow
slow-Obeys t n k q = rw (← wrote-cong q) (at_most_two-bounded n)

pub slow-Accepts : Accepts slow
slow-Accepts t n nz = let (k, q) = at_most_two-some n nz in (k, ap wrote q)

active-cong : {a b : List ℕ} → active a ≡ active b → a ≡ b
active-cong q = cc

pub slow-Selects : Selects slow
slow-Selects = record {
  idle = λ t ready q. cc;
  reports = λ t fd fds ready q. rw (← active-cong q) (ground arith);
}

abbrev start : World
start = record { clock = 0; sent = 9 ∷ [] }

abbrev pub line : List ℕ
line = 1 ∷ 2 ∷ 10 ∷ []

abbrev pub idle_net : Net
idle_net = record {
  strtol = λ cs. (80, []);
  gethostbyname2 = λ t ip. some (record { addresses = 1 ∷ []; address_length = 4 });
  socket = λ t. some 5;
  setsockopt = λ t fd. true;
  connect = λ t fd. none;
  close = λ t fd. none;
  errno = λ t. success;
}

pub idle_net-Serves : Serves idle_net
idle_net-Serves = record {
  sockets = λ t. (5, refl);
  options = λ t fd. refl;
  hosts = λ t ip. (_, refl);
}

tcp-IsDriver_example : IsDriver TcpInv (tcp_driver idle_net [])
tcp-IsDriver_example = tcp-IsDriver idle_net [] idle_net-Serves

abbrev pub down : OutputHandler
down = init none

abbrev up : OutputHandler
up = record down { state = os_ready; fd = some 5 }

common_write-Sends_example : Sends up line 3 start (common_write slow up line 3 start)
unfolding ends_line init
common_write-Sends_example =
    common_write-Sends slow up line 3 start slow-Obeys refl refl (omega arith) (omega arith)

pub down-TcpInv : TcpInv down
unfolding init
down-TcpInv = (λ q. refl, λ q. absurd (q refl), refl)

up-TcpInv : TcpInv up
unfolding init
up-TcpInv = (λ q. absurd (ground arith), λ q. (5, refl), refl)

deliver_message-returns_example :
    (done : Bool) × (h' : OutputHandler) × (w' : World) × (deliver_message slow
        (tcp_driver idle_net [])
        4
        down
        line
        start
      ≡ ok (done, h') w')
    × (w'.sent ≡ (if done then (9 ∷ []) ++ line else 9 ∷ []))
unfolding ends_line init
deliver_message-returns_example =
    deliver_message-returns slow (tcp_driver idle_net []) TcpInv down line start slow-Obeys
      slow-Accepts slow-Selects (tcp-IsDriver idle_net [] idle_net-Serves) refl (omega arith) refl
      down-TcpInv

-- a handler that a write left off
abbrev sending : OutputHandler
sending = record up { state = os_sending }

sending-HasFd : HasFd sending
sending-HasFd = (λ q. absurd (ground arith), λ q. (5, refl))

common_cleanup_lem_example :
    (sending.state ≢ os_sending
      → Gone start (common_cleanup (tcp_driver idle_net []) sending start))
    × (sending.state ≡ os_sending → common_cleanup (tcp_driver idle_net []) sending start ≡ aborted)
common_cleanup_lem_example = common_cleanup_lem idle_net [] sending start sending-HasFd

abbrev one_file : Files
one_file = record { open_file = λ t. opened 4; close = λ t fd. none }

one_file-plain : (t : ℕ) → one_file.open_file t ≢ opened 1
one_file-plain t q = ground arith

file-IsDriver_example : IsDriver FileInv (file_driver one_file)
file-IsDriver_example = file-IsDriver one_file one_file-plain

-- every write fails with EPIPE
abbrev broken_env : Env
broken_env = record { write = λ t n. write_failed epipe; select = λ t fds. first_active fds }

idle_connects :
    (h : OutputHandler) (w : World)
    → h.state ≡ os_disconnected
    → h.fd ≡ none
    → (w' : World) × ((tcp_driver idle_net []).connect h w
        ≡ ok (record h { state = os_ready; fd = some 5 }) w')
unfolding tcp_connect tcp_socket net_create_socket net_get_socketaddr parse_resource_spec
    whole_number split_host lookup resolved connected
idle_connects h w q shut = (tick (tick (tick w)), rw (q, shut) refl)

idle_disconnects :
    (h : OutputHandler) (w : World)
    → h.state ≡ os_error
    → h.fd ≡ some 5
    → (w' : World) × ((tcp_driver idle_net []).disconnect h w
        ≡ ok (record h { state = os_disconnected; fd = none }) w')
unfolding tcp_disconnect tcp_closed
idle_disconnects h w q fd = (tick w, rw (q, fd) refl)

broken_env-Refuses : Refuses broken_env (tcp_driver idle_net []) 5
broken_env-Refuses = record {
  is_active = λ t fds. refl;
  breaks = λ t n. refl;
  connects = idle_connects;
  disconnects = idle_disconnects;
}

deliver_message-stalls_example :
    deliver_message broken_env (tcp_driver idle_net []) 100 down line start ≡ out_of_fuel
unfolding ends_line init
deliver_message-stalls_example =
    deliver_message-stalls broken_env (tcp_driver idle_net []) 5 100 down line start
      broken_env-Refuses refl refl refl refl

-- every second call fails
abbrev every_second : ℕ → ℕ → WriteResult
every_second zero n = wrote (at_most_two n)
every_second (suc zero) n = write_failed epipe
every_second (suc (suc t)) n = every_second t n

every_second-bounded : (t n k : ℕ) → every_second t n ≡ wrote k → k ≤ n
every_second-bounded zero n k q = rw (← wrote-cong q) (at_most_two-bounded n)
every_second-bounded (suc zero) n k q = absurd (cc)
every_second-bounded (suc (suc t)) n k q = every_second-bounded t n k q

abbrev flaky : Env
flaky = record { write = every_second; select = λ t fds. first_active fds }

flaky-Selects : Selects flaky
flaky-Selects = record {
  idle = λ t ready q. cc;
  reports = λ t fd fds ready q. rw (← active-cong q) (ground arith);
}

deliver_message-Prefix_example :
    Prefix TcpInv line (9 ∷ []) (deliver_message flaky (tcp_driver idle_net []) 7 down line start)
unfolding ends_line init
deliver_message-Prefix_example =
    deliver_message-Prefix flaky (tcp_driver idle_net []) TcpInv 7 down line start
      every_second-bounded flaky-Selects (tcp-IsDriver idle_net [] idle_net-Serves) refl
      (omega arith) down-TcpInv

unix-Unconnected_example :
    (w : World) × (deliver_message slow unix_driver 4 (init none) line start
      ≡ ok (false, init none) w)
    × (w.sent ≡ 9 ∷ [])
unfolding init
unix-Unconnected_example =
    unix-Unconnected slow 4 (init none) line start slow-Selects (refl, refl) (omega arith)
