-- ===== src/Setup.antt =====
-- src/types.h, setup.c, input_file.c, input_udp.c, input_tcp.c, input_tcp_connection.c and
-- input_unix.c, and the listening sockets of net_tools.c: how a source or a destination is made from
-- its type and its resource string.
-- The calls of the kernel are the fields of `Os`, each by the number of calls made before it. exit()
-- and a failing `SysFatal` both end the process, as `aborted`.
pub mod Sources
pub mod Listener
pub mod Inputs
pub mod Tests
use genbuf.Prelude.{
  ℕ, zero, suc, Bool, true, false, not, Option, none, some, List, [], ◌∷◌, ◌++◌, ◌==◌,
  if◌then◌else◌, take, length,
}
use genbuf.Sys.{Errno, eagain}
use genbuf.InputTools
use genbuf.InputTools.{CommonHandler}
use genbuf.NetTools.{Net, net_get_socketaddr, net_create_socket}
use genbuf.Output
use genbuf.Output.{OutputHandler}
use genbuf.Output.Command.{
  World, Run, ok, aborted, out_of_fuel, Cmd, pure, ◌>>=◌, ◌>>◌, tick, require,
}

-- enum io_types
pub data IoType : Type 0 where
  type_udp type_tcp type_unix type_file type_unknown : IoType

-- What malloc returns is an argument too: an address, and the bytes that lie there.
pub record Os : Type 0 where
  pub open_file : ℕ → List ℕ → Option ℕ
  pub getprotobyname : ℕ → Bool
  pub bind : ℕ → ℕ → Bool
  pub get_flags : ℕ → ℕ → Bool
  pub set_nonblock : ℕ → ℕ → Bool
  pub listen : ℕ → ℕ → Bool
  pub accept : ℕ → ℕ → Option ℕ
  pub accept_errno : ℕ → Errno
  pub local_socket : ℕ → Option ℕ
  pub local_connect : ℕ → ℕ → List ℕ → Bool
  pub local_bind : ℕ → ℕ → List ℕ → Bool
  pub address : ℕ → ℕ
  pub garbage : ℕ → List ℕ

-- A source is a common handler, or a TCP listener with its descriptor.
pub data Input : Type 0 where
  common : CommonHandler → Input
  listener : ℕ → Input

abbrev pub get_fd : Input → ℕ
get_fd (common h) = h.fd
get_fd (listener fd) = fd

-- input_handler_common_init
unfoldable pub common_init : Os → ℕ → Cmd Input
common_init os fd w =
    ok (common (InputTools.init fd (os.address w.clock) (os.garbage w.clock))) (tick w)

-- the resource "-"
abbrev pub is_dash : List ℕ → Bool
is_dash [] = false
is_dash (c ∷ []) = c == 45
is_dash (c ∷ d ∷ cs) = false

-- the result of a call, which is fatal where it fails
unfoldable pub must : Bool → Cmd (Unit {0})
must b w = elim b [ true ↦ ok tt (tick w) | false ↦ aborted ]

unfoldable pub must_open : Option ℕ → Cmd ℕ
must_open none w = aborted
must_open (some fd) w = ok fd (tick w)

-- The descriptor that is opened is not the one of the handler.
unfoldable pub file_init : Os → List ℕ → Cmd Input
file_init os res =
    if is_dash res
    then common_init os 0
    else (do fd ← (λ w. must_open (os.open_file w.clock res) w); common_init os 0)

unfoldable pub net_get_protocol : Os → Cmd (Unit {0})
net_get_protocol os w = must (os.getprotobyname w.clock) w

unfoldable pub require_address : {A : Type 0} → Option A → Cmd (Unit {0})
require_address none w = aborted
require_address (some a) w = ok tt w

unfoldable pub net_create_listening_socket : Os → Net → List ℕ → Cmd ℕ
net_create_listening_socket os net res = do
  addr ← net_get_socketaddr net res
  require_address addr
  fd ← net_create_socket net
  (λ w. must (os.bind w.clock fd) w)
  (λ w. must (os.get_flags w.clock fd) w)
  (λ w. must (os.set_nonblock w.clock fd) w)
  pure fd

unfoldable pub udp_init : Os → Net → List ℕ → Cmd Input
udp_init os net res = do
  net_get_protocol os
  fd ← net_create_listening_socket os net res
  common_init os fd

unfoldable pub tcp_init : Os → Net → List ℕ → Cmd Input
tcp_init os net res = do
  net_get_protocol os
  fd ← net_create_listening_socket os net res
  (λ w. must (os.listen w.clock fd) w)
  pure (listener fd)

-- sun_path has 108 bytes with its NUL.
abbrev pub sun_path : List ℕ → List ℕ
sun_path filename = take 107 filename

-- connect_to_named_socket and make_named_socket return the result of connect and of bind, 0 or -1.
unfoldable pub connect_to_named_socket : Os → List ℕ → Cmd (Option ℕ)
connect_to_named_socket os filename = do
  sock ← (λ w. must_open (os.local_socket w.clock) w)
  (λ w. ok (if os.local_connect w.clock sock (sun_path filename) then some 0 else none) (tick w))

unfoldable pub make_named_socket : Os → List ℕ → Cmd (Option ℕ)
make_named_socket os filename = do
  sock ← (λ w. must_open (os.local_socket w.clock) w)
  (λ w. ok (if os.local_bind w.clock sock (sun_path filename) then some 0 else none) (tick w))

unfoldable pub bound : Option ℕ → Cmd ℕ
bound none w = aborted
bound (some fd) w = ok fd w

unfoldable pub or_bind : Os → List ℕ → Option ℕ → Cmd ℕ
or_bind os res (some fd) = pure fd
or_bind os res none = do fd ← make_named_socket os res; bound fd

unfoldable pub unix_init : Os → List ℕ → Cmd Input
unix_init os res = do
  first ← connect_to_named_socket os res
  fd ← or_bind os res first
  common_init os fd

unfoldable pub create_input_handler : Os → Net → IoType → List ℕ → Cmd Input
create_input_handler os net type_file res = file_init os res
create_input_handler os net type_unix res = unix_init os res
create_input_handler os net type_udp res = udp_init os net res
create_input_handler os net type_tcp res = tcp_init os net res
create_input_handler os net type_unknown res = λ w. aborted

-- The kind of a destination, which chooses its driver, and its handler.
pub record Destination : Type 0 where
  pub kind : IoType
  pub handler : OutputHandler

abbrev pub destination : IoType → Option ℕ → Destination
destination kind fd = record { kind = kind; handler = Output.init fd }

unfoldable pub create_output_handler : Os → IoType → List ℕ → Cmd Destination
create_output_handler os type_file res =
    pure (destination type_file (if is_dash res then some 1 else none))
create_output_handler os type_unix res = pure (destination type_unix none)
create_output_handler os type_udp res = do net_get_protocol os; pure (destination type_udp none)
create_output_handler os type_tcp res = do net_get_protocol os; pure (destination type_tcp none)
create_output_handler os type_unknown res = λ w. aborted

-- The end of the accepts of a listener: the connections that were accepted, and the result.
pub data Accepted : Type 0 where
  accepted : InputTools.Status → List CommonHandler → World → Accepted
  accepting : Accepted

abbrev pub tcp_connection_init : Os → ℕ → World → CommonHandler
tcp_connection_init os fd w = InputTools.init fd (os.address w.clock) (os.garbage w.clock)

unfoldable pub add_connection : CommonHandler → Accepted → Accepted
add_connection h (accepted st hs w) = accepted st (h ∷ hs) w
add_connection h accepting = accepting

unfoldable pub accept_error : Errno → InputTools.Status
accept_error eagain = InputTools.status_ok
accept_error _ = InputTools.status_eof

-- input_handler_tcp_read, one round for each accept()
unfoldable pub tcp_read : Os → ℕ → ℕ → World → Accepted
tcp_read os zero fd w = accepting
tcp_read os (suc rounds) fd w = elim (os.accept w.clock fd) [
  | none ↦ accepted (accept_error (os.accept_errno w.clock)) [] (tick w)
  | some new ↦ add_connection (tcp_connection_init os new w) (tcp_read os rounds fd (tick w))
]
