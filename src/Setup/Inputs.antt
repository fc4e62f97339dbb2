-- ===== src/Setup/Inputs.antt =====
-- The sources of src/setup.c as sources of the reader: common handlers, and TCP listeners, whose reads
-- add the connections that they accept.
use genbuf.Prelude.{
  ℕ, ◌<◌, ◌≡◌, ap, Bool-cases, inl, inr, Option, none, some, List, [], ◌∷◌, arith, length,
}
use genbuf.InputTools
use genbuf.InputTools.{CommonHandler, Answer, max_msg_size, status_ok}
use genbuf.InputTools.Assembler.{Mode, collecting}
use genbuf.InputTools.Refine.{Models}
use genbuf.InputTools.Stream.{init-Models}
use genbuf.InputTools.Faults.{Obeys}
use genbuf.NetTools.{Net}
use genbuf.Output.Command.{World, Run, ok, aborted, out_of_fuel, Cmd, pure, ◌>>=◌, ◌>>◌}
use genbuf.Reader.{Reading, Kind, common_kind}
use genbuf.Reader.Common.{common_kind-Closed}
use genbuf.Reader.Safe.{Added, IsSafe}
use genbuf.Setup.{
  Os, Input, common, listener, IoType, type_udp, type_tcp, type_unix, type_file, type_unknown,
  common_init, is_dash, must, must_open, file_init, net_get_protocol, net_create_listening_socket,
  udp_init, tcp_init, connect_to_named_socket, or_bind, unix_init, create_input_handler, Accepted,
  accepted, accepting, tcp_read,
}
use genbuf.Setup.Listener.{Waiting, Fresh, tcp_read_lem}

unfoldable pub common_reading : Option (Reading CommonHandler) → Option (Reading Input)
common_reading none = none
common_reading (some r) =
    some (record { status = r.status; handler = common r.handler; lines = r.lines; added = [] })

-- add_source() for each connection
unfoldable pub connections : List CommonHandler → List (Option ℕ × Input)
connections [] = []
connections (h ∷ hs) = (some h.fd, common h) ∷ connections hs

-- A read that accepts without end does not come back.
unfoldable pub listener_reading : ℕ → Accepted → Option (Reading Input)
listener_reading fd accepting = none
listener_reading fd (accepted st hs w) =
    some (record { status = st; handler = listener fd; lines = []; added = connections hs })

-- the `read` member of a source, with `rounds` for the accepts of one read
unfoldable pub input_kind : (ℕ → Answer) → Os → ℕ → Kind Input
input_kind answers os rounds t (common h) = common_reading (common_kind answers t h)
input_kind answers os rounds t (listener fd) =
    listener_reading fd (tcp_read os rounds fd (record { clock = t; sent = [] }))

-- a listener, or a handler in some mode
unfoldable pub IsReady : Input → Type 0
IsReady (common h) = (m : Mode) × Models max_msg_size h m
IsReady (listener fd) = Unit

-- At each read of a listener less than `rounds` connections wait.
abbrev pub AcceptsFew : Os → ℕ → Type 0
AcceptsFew os rounds =
    (t fd : ℕ)
    → (fds : List ℕ) × Waiting os fd (record { clock = t; sent = [] }) fds × (length fds < rounds)

Fresh-Added :
    (hs : List CommonHandler) (fds : List ℕ) → Fresh hs fds → Added IsReady (connections hs)
unfolding connections IsReady
Fresh-Added [] [] v = tt
Fresh-Added [] (fd ∷ fds) v = absurd v
Fresh-Added (h ∷ hs) [] v = absurd v
Fresh-Added (h ∷ hs) (fd ∷ fds) (e, m, v) = ((collecting [], m), Fresh-Added hs fds v)

-- The reads of sources do not abort, and leave and add sources that are ready.
pub input_kind-IsSafe :
    (answers : ℕ → Answer) (os : Os) (rounds : ℕ)
    → ((t : ℕ) → Obeys max_msg_size (answers t))
    → ((t : ℕ) → length (os.garbage t) ≡ max_msg_size)
    → AcceptsFew os rounds
    → IsSafe IsReady (input_kind answers os rounds)
unfolding input_kind common_reading listener_reading IsReady
input_kind-IsSafe answers os rounds o g few t (common h) v =
    let (r, e, _, keeps) = common_kind-Closed max_msg_size answers (omega arith) o t h v in
    (_, ap common_reading e, keeps, tt)
input_kind-IsSafe answers os rounds o g few t (listener fd) v =
    let (fds, waiting, k) = few t fd in
    let (hs, ran, fresh) =
      tcp_read_lem os rounds fd (record { clock = t; sent = [] }) fds g waiting k in
    (_, ap (listener_reading fd) ran, λ q. tt, Fresh-Added hs fds fresh)

-- a source that is ready, where one is made
abbrev pub MakesReady : Run Input → Type 0
MakesReady (ok s w) = IsReady s
MakesReady aborted = Unit
MakesReady out_of_fuel = Unit

behind-MakesReady :
    {A : Type 0} (f : A → Cmd Input) (out : Run A)
    → ((a : A) (w : World) → MakesReady (f a w))
    → MakesReady (elim out [ ok a w ↦ f a w | aborted ↦ aborted | out_of_fuel ↦ out_of_fuel ])
behind-MakesReady f (ok a w) v = v a w
behind-MakesReady f aborted v = tt
behind-MakesReady f out_of_fuel v = tt

bind-MakesReady :
    {A : Type 0} (m : Cmd A) (f : A → Cmd Input) (w : World)
    → ((a : A) (w' : World) → MakesReady (f a w'))
    → MakesReady ((m >>= f) w)
bind-MakesReady m f w v = behind-MakesReady f (m w) v

module _ (os : Os) (g : (t : ℕ) → length (os.garbage t) ≡ max_msg_size) where
  common_init-MakesReady : (fd : ℕ) (w : World) → MakesReady (common_init os fd w)
  unfolding common_init IsReady InputTools.init
  common_init-MakesReady fd w =
      (collecting [], init-Models fd (os.address w.clock) (os.garbage w.clock) (g w.clock))

  -- a call, and then a handler on what it gives
  init_on-MakesReady : (m : Cmd ℕ) (w : World) → MakesReady ((m >>= common_init os) w)
  init_on-MakesReady m w = bind-MakesReady m (common_init os) w common_init-MakesReady

  pub create-MakesReady :
      (net : Net) (ty : IoType) (res : List ℕ) (w : World)
      → MakesReady (create_input_handler os net ty res w)
  unfolding create_input_handler file_init unix_init udp_init tcp_init IsReady
  create-MakesReady net type_unknown res w = tt
  create-MakesReady net type_file res w = elim (Bool-cases (is_dash res)) [
    | inl e ↦ rw e (common_init-MakesReady 0 w)
    | inr e ↦ rw e (
        bind-MakesReady (λ w'. must_open (os.open_file w'.clock res) w') (λ _. common_init os 0) w
          (λ a w'. common_init-MakesReady 0 w'))
  ]
  create-MakesReady net type_unix res w =
      bind-MakesReady (connect_to_named_socket os res)
        (λ first. or_bind os res first >>= common_init os) w
        (λ first w'. init_on-MakesReady (or_bind os res first) w')
  create-MakesReady net type_udp res w =
      bind-MakesReady (net_get_protocol os)
        (λ _. net_create_listening_socket os net res >>= common_init os) w
        (λ _ w'. init_on-MakesReady (net_create_listening_socket os net res) w')
  create-MakesReady net type_tcp res w =
      bind-MakesReady (net_get_protocol os)
        (λ _. net_create_listening_socket os net res >>= λ fd.
          (λ w. must (os.listen w.clock fd) w) >> pure (listener fd))
        w
        (λ _ w'.
          bind-MakesReady (net_create_listening_socket os net res)
            (λ fd. (λ w. must (os.listen w.clock fd) w) >> pure (listener fd)) w'
            (λ fd w''.
              bind-MakesReady (λ w. must (os.listen w.clock fd) w) (λ _. pure (listener fd)) w''
                (λ _ w3. tt)))
