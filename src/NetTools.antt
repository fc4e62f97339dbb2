-- ===== src/NetTools.antt =====
-- src/net_tools.c: the resource string of an address, and the socket of a connection. The calls of
-- the C library and the kernel are the fields of `Net`, an argument, each by the number of calls made
-- before it.
pub mod Resource
mod Tests
use genbuf.Prelude.{
  ℕ, suc, Bool, true, false, Option, none, some, List, [], ◌∷◌, ◌==◌, if◌then◌else◌,
}
use genbuf.Sys.{Errno}
use genbuf.Output.Command.{World, Run, ok, aborted, Cmd, pure, ◌>>=◌, tick}

-- The answer of gethostbyname2: the addresses, and the length of each.
pub record Host : Type 0 where
  pub addresses : List ℕ
  pub address_length : ℕ

-- `strtol` gives the value modulo 2 ^ 16, which is what htons keeps of it, and the text behind the
-- number. `connect` and `close` are -1 with errno, or `none`.
pub record Net : Type 0 where
  pub strtol : List ℕ → ℕ × List ℕ
  pub gethostbyname2 : ℕ → List ℕ → Option Host
  pub socket : ℕ → Option ℕ
  pub setsockopt : ℕ → ℕ → Bool
  pub connect : ℕ → ℕ → Option Errno
  pub close : ℕ → ℕ → Option Errno
  pub errno : ℕ → Errno

-- sin_addr, INADDR_ANY as `none`, and sin_port
pub record Address : Type 0 where
  pub host : Option ℕ
  pub port : ℕ

abbrev pub colon : ℕ
colon = 58

-- a character before the text that is split already
unfoldable pub host_cons : ℕ → Option (List ℕ) × List ℕ → Option (List ℕ) × List ℕ
host_cons c (some ip, rest) = (some (c ∷ ip), rest)
host_cons c (none, rest) = if c == colon then (some [], rest) else (none, c ∷ rest)

-- The text before the last ':', where there is one, and the text behind it: rindex and strndup.
unfoldable pub split_host : List ℕ → Option (List ℕ) × List ℕ
split_host [] = (none, [])
split_host (c ∷ cs) = host_cons c (split_host cs)

unfoldable pub whole_number : Option (List ℕ) → ℕ × List ℕ → Option (Option (List ℕ) × ℕ)
whole_number ip (port, []) = some (ip, port)
whole_number ip (port, c ∷ cs) = none

unfoldable pub parse_resource_spec : Net → List ℕ → Option (Option (List ℕ) × ℕ)
parse_resource_spec net res =
    let (ip, number) = split_host res in whole_number ip (net.strtol number)

-- the first address of the host, which must have four bytes
unfoldable pub host_address : ℕ → Host → Option Address
host_address port host = elim host.addresses [
  | [] ↦ none
  | a ∷ _ ↦ if host.address_length == 4 then some (record { host = some a; port = port }) else none
]

-- A lookup without an answer is read through all the same, as a null pointer.
unfoldable pub resolve : Net → List ℕ → ℕ → Cmd (Option Address)
resolve net ip port w = elim (net.gethostbyname2 w.clock ip) [
  | none ↦ aborted
  | some host ↦ ok (host_address port host) (tick w)
]

unfoldable pub lookup : Net → Option (Option (List ℕ) × ℕ) → Cmd (Option Address)
lookup net none = pure none
lookup net (some (none, port)) = pure (some (record { host = none; port = port }))
lookup net (some (some ip, port)) = resolve net ip port

unfoldable pub net_get_socketaddr : Net → List ℕ → Cmd (Option Address)
net_get_socketaddr net res = lookup net (parse_resource_spec net res)

-- The kind of socket is that of the handler, "tcp" or "udp".
unfoldable pub net_create_socket : Net → Cmd ℕ
net_create_socket net w = elim (net.socket w.clock) [
  | none ↦ aborted
  | some fd ↦ if net.setsockopt (suc w.clock) fd then ok fd (tick (tick w)) else aborted
]
