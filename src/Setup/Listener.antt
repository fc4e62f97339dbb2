-- ===== src/Setup/Listener.antt =====
-- The read of a TCP listener: the connections that wait are accepted, each on a handler of its own.
use genbuf.Prelude.{ℕ, zero, suc, ◌<◌, ◌≡◌, refl, none, some, List, [], ◌∷◌, arith, length}
use genbuf.InputTools
use genbuf.InputTools.{CommonHandler, max_msg_size}
use genbuf.InputTools.Assembler.{collecting}
use genbuf.InputTools.Refine.{Models}
use genbuf.InputTools.Stream.{init-Models}
use genbuf.Output.Command.{World, tick}
use genbuf.Setup.{Os, accepted, add_connection, accept_error, tcp_read}

-- accept() gives these descriptors, one after the other, and then fails.
abbrev pub Waiting : Os → ℕ → World → List ℕ → Type 0
Waiting os fd w [] = os.accept w.clock fd ≡ none
Waiting os fd w (new ∷ more) = (os.accept w.clock fd ≡ some new) × Waiting os fd (tick w) more

-- the world behind so many calls
abbrev pub ticks : ℕ → World → World
ticks zero w = w
ticks (suc n) w = ticks n (tick w)

-- new handlers, in the order of their descriptors
abbrev pub Fresh : List CommonHandler → List ℕ → Type 0
Fresh [] [] = Unit
Fresh [] (fd ∷ fds) = ⊥
Fresh (h ∷ hs) [] = ⊥
Fresh (h ∷ hs) (fd ∷ fds) = (h.fd ≡ fd) × Models max_msg_size h (collecting []) × Fresh hs fds

-- Where a number of connections wait and accept() then fails, a read of the listener ends, given more
-- rounds than there are connections: each has a handler, in order, that has read nothing yet; and the
-- result is 0 if the failure was EAGAIN, and -1 for any other. The condition is that malloc gives the
-- buffer's size.
pub tcp_read_lem :
    (os : Os) (rounds fd : ℕ) (w : World) (fds : List ℕ)
    → ((t : ℕ) → length (os.garbage t) ≡ max_msg_size)
    → Waiting os fd w fds
    → length fds < rounds
    → (hs : List CommonHandler) × (tcp_read os rounds fd w
        ≡ accepted
            (accept_error (os.accept_errno (ticks (length fds) w).clock))
            hs
            (ticks (suc (length fds)) w))
      × Fresh hs fds
unfolding tcp_read add_connection InputTools.init
tcp_read_lem os zero fd w fds g e k = absurd (omega arith)
tcp_read_lem os (suc rounds) fd w [] g e k = ([], rw (e, tcp_read) refl, tt)
tcp_read_lem os (suc rounds) fd w (new ∷ fds) g (e, more) k =
    let (hs, run, fresh) = tcp_read_lem os rounds fd (tick w) fds g more (omega arith) in
    (
      InputTools.init new (os.address w.clock) (os.garbage w.clock) ∷ hs,
      rw (e, tcp_read) (rw run refl),
      (refl, init-Models new (os.address w.clock) (os.garbage w.clock) (g w.clock), fresh),
    )
