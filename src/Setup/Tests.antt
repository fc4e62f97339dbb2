-- ===== src/Setup/Tests.antt =====
-- A system whose calls succeed, and the theorems on sources there.
use genbuf.Prelude.{
  ℕ, zero, suc, ◌≡◌, refl, true, inr, Option, none, some, List, [], ◌∷◌, arith, length, replicate,
  length-replicate,
}
use genbuf.Sys.{eagain}
use genbuf.InputTools
use genbuf.InputTools.{max_msg_size}
use genbuf.NetTools.{Net}
use genbuf.Output.Command.{World}
use genbuf.Setup.{Os, type_unix, create_input_handler, tcp_read, accepted, accept_error}
use genbuf.Setup.Listener.{Fresh, ticks, tcp_read_lem}
use genbuf.Setup.Sources.{Opens, Reads, local-Reads}

-- malloc gives zeroes, with the proof of their number
abbrev zeroes : (n : ℕ) → (xs : List ℕ) × (length xs ≡ n)
zeroes n = (replicate n 0, length-replicate n 0)

-- Two connections wait, at the first two calls.
abbrev two_wait : ℕ → Option ℕ
two_wait zero = some 7
two_wait (suc zero) = some 8
two_wait (suc (suc n)) = none

abbrev pub os : Os
os = record {
  open_file = λ t res. some 5;
  getprotobyname = λ t. true;
  bind = λ t fd. true;
  get_flags = λ t fd. true;
  set_nonblock = λ t fd. true;
  listen = λ t fd. true;
  accept = λ t fd. two_wait t;
  accept_errno = λ t. eagain;
  local_socket = λ t. some 6;
  local_connect = λ t sock path. true;
  local_bind = λ t sock path. true;
  address = λ t. 4096;
  garbage = λ t. (zeroes max_msg_size).0;
}

pub os-Opens : Opens os
os-Opens = record {
  buffers = λ t. (zeroes max_msg_size).1;
  files = λ t res. (5, refl);
  socks = λ t. (6, refl);
  local_binds = λ t sock path. refl;
  protocols = λ t. refl;
  binds = λ t fd. refl;
  flags = λ t fd. refl;
  nonblocks = λ t fd. refl;
  listens = λ t fd. refl;
}

-- each number is 514
abbrev pub net : Net
net = record {
  strtol = λ s. (514, []);
  gethostbyname2 = λ t ip. some (record { addresses = 127 ∷ []; address_length = 4 });
  socket = λ t. some 9;
  setsockopt = λ t fd. true;
  connect = λ t fd. none;
  close = λ t fd. none;
  errno = λ t. eagain;
}

abbrev start : World
start = record { clock = 0; sent = [] }

tcp_read_lem_example :
    (hs : List InputTools.CommonHandler) × (tcp_read os 3 4 start
      ≡ accepted InputTools.status_ok hs (ticks 3 start))
    × Fresh hs (7 ∷ 8 ∷ [])
unfolding accept_error
tcp_read_lem_example =
    tcp_read_lem os 3 4 start (7 ∷ 8 ∷ []) (λ t. (zeroes max_msg_size).1) (refl, (refl, refl))
      (omega arith)

local-Reads_example : Reads 0 (create_input_handler os net type_unix (47 ∷ []) start)
local-Reads_example = local-Reads os net type_unix (47 ∷ []) start os-Opens (inr refl)
