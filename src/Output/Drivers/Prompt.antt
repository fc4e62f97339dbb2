-- ===== src/Output/Drivers/Prompt.antt =====
-- The TCP output of a host that takes connections at once.
use genbuf.Prelude.{ℕ, ◌≡◌, refl, some, none, List, ◌∷◌, arith}
use genbuf.NetTools.{Net, Address, net_get_socketaddr}
use genbuf.Output.Command.{World, ok, tick, ◌>>=◌}
use genbuf.Output.{Env, active, os_ready}
use genbuf.Output.Prompt.{IsPrompt}
use genbuf.Output.Drivers.{connected, resolved, tcp_socket, tcp_connect, tcp_driver}
use genbuf.Output.Drivers.Tcp.{Serves, TcpInv, net_create_socket_lem}

-- The name of the destination has an address.
abbrev pub IsFound : Net → List ℕ → Type 0
IsFound net res =
    (w : World)
    → (a : Address) × (w' : World) × (net_get_socketaddr net res w ≡ ok (some a) w')
      × (w'.sent ≡ w.sent)

pub tcp-IsPrompt :
    (net : Net) (res : List ℕ) (env : Env)
    → Serves net
    → IsFound net res
    → ((t fd : ℕ) → net.connect t fd ≡ none)
    → ((t fd : ℕ) (fds : List ℕ) → (ready : List ℕ) × (env.select t (fd ∷ fds) ≡ active ready))
    → IsPrompt TcpInv env (tcp_driver net res)
unfolding tcp_connect tcp_socket resolved connected
tcp-IsPrompt net res env s found at_once wakes = record {
  wakes = wakes;
  connects = λ h w i down.
      let (fd, _, made) = net_create_socket_lem net w s in
      let (a, w1, address, same) = found (tick (tick w)) in
      (
        record h { state = os_ready; fd = some fd },
        tick w1,
        rw (down, i.0 down)
            (rw (made, ◌>>=◌) (rw (address, ◌>>=◌) (rw (at_once w1.clock fd) refl))),
        same,
        (λ q. absurd (ground arith), λ q. (fd, refl), i.2),
        refl,
      );
}
