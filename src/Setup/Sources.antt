-- ===== src/Setup/Sources.antt =====
-- The descriptor on which a new source reads.
use genbuf.Prelude.{
  ℕ, suc, ◌≡◌, ◌⊎◌, inl, inr, refl, true, Bool-cases, some, List, [], arith, length,
}
use genbuf.InputTools
use genbuf.InputTools.{CommonHandler, max_msg_size}
use genbuf.InputTools.Assembler.{collecting}
use genbuf.InputTools.Refine.{Models}
use genbuf.InputTools.Stream.{init-Models}
use genbuf.NetTools.{Net, Address, net_get_socketaddr}
use genbuf.Output.Command.{World, Run, ok, ◌>>=◌, tick}
use genbuf.Output.Drivers.Tcp.{Serves, net_create_socket_lem}
use genbuf.Setup.{
  Os, Input, common, get_fd, IoType, type_file, type_unix, type_udp, type_tcp, common_init, is_dash,
  must, net_get_protocol, require_address, net_create_listening_socket, udp_init, tcp_init,
  must_open, file_init, connect_to_named_socket, make_named_socket, bound, or_bind, unix_init,
  sun_path, create_input_handler,
}

-- a source on a common handler that has read nothing yet, on the descriptor
abbrev pub Reads : ℕ → Run Input → Type 0
Reads fd r =
    (h : CommonHandler) × (w : World) × (r ≡ ok (common h) w)
    × (h.fd ≡ fd)
    × Models max_msg_size h (collecting [])

-- Every call that a source needs succeeds: open(), socket() and bind() of a local socket, the lookup
-- of a protocol, and the calls on a listening socket; and malloc gives the buffer's size.
pub record Opens (os : Os) : Type 0 where
  pub buffers : (t : ℕ) → length (os.garbage t) ≡ max_msg_size
  pub files : (t : ℕ) (res : List ℕ) → (fd : ℕ) × (os.open_file t res ≡ some fd)
  pub socks : (t : ℕ) → (sock : ℕ) × (os.local_socket t ≡ some sock)
  pub local_binds : (t sock : ℕ) (path : List ℕ) → os.local_bind t sock path ≡ true
  pub protocols : (t : ℕ) → os.getprotobyname t ≡ true
  pub binds : (t fd : ℕ) → os.bind t fd ≡ true
  pub flags : (t fd : ℕ) → os.get_flags t fd ≡ true
  pub nonblocks : (t fd : ℕ) → os.set_nonblock t fd ≡ true
  pub listens : (t fd : ℕ) → os.listen t fd ≡ true

module _ (os : Os) (o : Opens os) where
  common_init-Reads : (fd : ℕ) (w : World) → Reads fd (common_init os fd w)
  unfolding common_init InputTools.init
  common_init-Reads fd w = (
    _,
    _,
    refl,
    refl,
    init-Models fd (os.address w.clock) (os.garbage w.clock) (o.buffers w.clock),
  )

  file-Reads : (res : List ℕ) (w : World) → Reads 0 (file_init os res w)
  unfolding file_init must_open
  file-Reads res w = elim (Bool-cases (is_dash res)) [
    | inl dash ↦ rw (dash, file_init) (common_init-Reads 0 w)
    | inr plain ↦
        rw (plain, file_init) (rw ((o.files w.clock res).1, ◌>>=◌) (common_init-Reads 0 (tick w)))
  ]

  unix-Reads : (res : List ℕ) (w : World) → Reads 0 (unix_init os res w)
  unfolding unix_init connect_to_named_socket make_named_socket or_bind bound must_open
  unix-Reads res w =
      let (s, q) = o.socks w.clock in
      let (s', q') = o.socks (suc (suc w.clock)) in
      elim (Bool-cases (os.local_connect (suc w.clock) s (sun_path res))) [
        | inl linked ↦ rw (q, ◌>>=◌) (rw (linked, ◌>>=◌) (common_init-Reads 0 (tick (tick w))))
        | inr refused ↦
            rw (q, ◌>>=◌)
              (rw (refused, ◌>>=◌)
                (rw (q', ◌>>=◌)
                  (rw (o.local_binds (suc (suc (suc w.clock))) s' (sun_path res), ◌>>=◌)
                    (common_init-Reads 0 (tick (tick (tick (tick w))))))))
      ]

  net_create_listening_socket_lem :
      (net : Net) (res : List ℕ) (w w' : World) (a : Address)
      → Serves net
      → net_get_socketaddr net res w ≡ ok (some a) w'
      → (fd : ℕ) × (w2 : World) × (net.socket w'.clock ≡ some fd)
        × (net_create_listening_socket os net res w ≡ ok fd w2)
  unfolding net_create_listening_socket require_address must
  net_create_listening_socket_lem net res w w' a s found =
      let (fd, given, made) = net_create_socket_lem net w' s in
      (
        fd,
        tick (tick (tick (tick (tick w')))),
        given,
        rw (found, ◌>>=◌)
            (rw (made, ◌>>=◌)
              (rw (o.binds (suc (suc w'.clock)) fd, ◌>>=◌)
                (rw (o.flags (suc (suc (suc w'.clock))) fd, ◌>>=◌)
                  (rw (o.nonblocks (suc (suc (suc (suc w'.clock)))) fd, ◌>>=◌) refl)))),
      )

-- the descriptor of a new source
abbrev pub Listens : ℕ → Run Input → Type 0
Listens fd r = (s : Input) × (w : World) × (r ≡ ok s w) × (get_fd s ≡ fd)

-- Where every call that a source needs succeeds, a source of the type file or unix is a new handler
-- that has read nothing yet, and reads the descriptor 0, whichever descriptor open() or socket() gave
-- for the resource.
pub local-Reads :
    (os : Os) (net : Net) (ty : IoType) (res : List ℕ) (w : World)
    → Opens os
    → (ty ≡ type_file) ⊎ (ty ≡ type_unix)
    → Reads 0 (create_input_handler os net ty res w)
unfolding create_input_handler
local-Reads os net ty res w o (inl e) = rw (e, create_input_handler) (file-Reads os o res w)
local-Reads os net ty res w o (inr e) = rw (e, create_input_handler) (unix-Reads os o res w)

-- Where every call that a source needs succeeds and the resource has an address, a source of the type
-- udp or tcp has the descriptor that socket() gave.
pub net-Listens :
    (os : Os) (net : Net) (ty : IoType) (res : List ℕ) (w w' : World) (a : Address) (fd : ℕ)
    → Opens os
    → Serves net
    → (ty ≡ type_udp) ⊎ (ty ≡ type_tcp)
    → net_get_socketaddr net res (tick w) ≡ ok (some a) w'
    → net.socket w'.clock ≡ some fd
    → Listens fd (create_input_handler os net ty res w)
unfolding create_input_handler udp_init tcp_init net_get_protocol must common_init InputTools.init
net-Listens os net ty res w w' a fd o s (inl e) found made =
    let (fd', w2, same, run) = net_create_listening_socket_lem os o net res (tick w) w' a s found in
    rw (e, create_input_handler)
      (rw (o.protocols w.clock, ◌>>=◌) (rw (run, ◌>>=◌) (_, _, refl, ground arith)))
net-Listens os net ty res w w' a fd o s (inr e) found made =
    let (fd', w2, same, run) = net_create_listening_socket_lem os o net res (tick w) w' a s found in
    rw (e, create_input_handler)
      (rw (o.protocols w.clock, ◌>>=◌)
        (rw (run, ◌>>=◌) (rw (o.listens w2.clock fd', ◌>>=◌) (_, _, refl, ground arith))))
