-- ===== src/Output/Drivers/File.antt =====
-- The file output: that it is a driver as deliver_message relies on.
use genbuf.Prelude.{◌∙◌, ℕ, ◌≡◌, ◌≢◌, refl, true, false, Option, none, some, arith}
use genbuf.Sys.{Errno}
use genbuf.Output.Command.{World, ok, tick}
use genbuf.Output.{os_disconnected, os_error, OutputHandler, can_write}
use genbuf.Output.Contract.{Quiet, IsDriver}
use genbuf.Output.Drivers.{
  Files, OpenResult, opened, not_open, is_stdout, file_opened, file_connect, file_closed,
  file_disconnect, file_driver, close_fd,
}

-- A handler that can write has a descriptor, which is not the standard output.
abbrev pub FileInv : OutputHandler → Type 0
FileInv h = (is_stdout h.fd ≡ false) × (can_write h.state ≡ true → (fd : ℕ) × (h.fd ≡ some fd))

file_opened_lem :
    (h : OutputHandler) (r : OpenResult)
    → r ≢ opened 1
    → h.state ≡ os_disconnected
    → FileInv (file_opened h r)
unfolding file_opened
file_opened_lem h (not_open e) k down = (refl, λ can. absurd (ground arith))
file_opened_lem h (opened fd) k down = (ground arith, λ can. (fd, refl))

file_closed_lem :
    (h : OutputHandler) (r : Option Errno) → h.state ≡ os_error → FileInv (file_closed h r)
unfolding file_closed
file_closed_lem h none broken = (refl, λ can. absurd (ground arith))
file_closed_lem h (some e) broken = (refl, λ can. absurd (ground arith))

file_connect-Quiet :
    (files : Files) (h : OutputHandler) (w : World)
    → ((t : ℕ) → files.open_file t ≢ opened 1)
    → FileInv h
    → h.state ≡ os_disconnected
    → Quiet FileInv w (file_connect files h w)
unfolding file_connect
file_connect-Quiet files h w k (plain, fd) down = (
  file_opened h (files.open_file w.clock),
  tick w,
  ground arith,
  refl,
  file_opened_lem h (files.open_file w.clock) (k w.clock) down,
)

close_fd_lem :
    (close : ℕ → ℕ → Option Errno) (fd : Option ℕ) (w : World)
    → (r : Option Errno) × (close_fd close fd w ≡ ok r (tick w))
close_fd_lem close none w = (_, refl)
close_fd_lem close (some fd) w = (_, refl)

file_disconnect-Quiet :
    (files : Files) (h : OutputHandler) (w : World)
    → FileInv h
    → h.state ≡ os_error
    → Quiet FileInv w (file_disconnect files h w)
unfolding file_disconnect
file_disconnect-Quiet files h w (plain, fd) broken =
    let (r, run) = close_fd_lem files.close h.fd w in
    (file_closed h r, tick w, ground (arith, run), refl, file_closed_lem h r broken)

written-FileInv :
    (h h' : OutputHandler) → FileInv h → can_write h.state ≡ true → h'.fd ≡ h.fd → FileInv h'
written-FileInv h h' i can same = let (fd, q) = i.1 can in (rw same i.0, λ k. (fd, same ∙ q))

-- Where open() does not give the descriptor 1, the file output is a driver for handlers that do not
-- stand for the standard output: a connect of a disconnected handler and a disconnect of a handler
-- in the error state end, send no byte, and keep the invariant that a handler that can write has a
-- descriptor and that this is not 1, as a write does too.
pub file-IsDriver :
    (files : Files)
    → ((t : ℕ) → files.open_file t ≢ opened 1)
    → IsDriver FileInv (file_driver files)
file-IsDriver files k = record {
  has_fd = λ h i can. i.1 can;
  writes = λ h h' i can same tries state. written-FileInv h h' i can same;
  connects = λ h w i down. file_connect-Quiet files h w k i down;
  disconnects = λ h w i broken. file_disconnect-Quiet files h w i broken;
}
