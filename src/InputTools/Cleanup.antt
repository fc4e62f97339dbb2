-- ===== src/InputTools/Cleanup.antt =====
-- input_buffer_free of src/input_buffer.c, and the members `getfd` and `cleanup` of the handlers of
-- src/input_tools.c and src/input_tcp.c. What a cleanup gives back is a list, in the order of the
-- calls. close() is an argument, which says for each descriptor whether it succeeds.
use genbuf.Prelude.{arith, ℕ, ◌≡◌, Bool, true, false, List, [], ◌∷◌, ◌++◌, if◌then◌else◌}
use genbuf.InputBuffer.{InputBuffer}
use genbuf.InputTools.{CommonHandler}

pub data Release : Type 0 where
  free_bytes free_buffer free_priv free_handler : Release
  close_fd : ℕ → Release

-- The result of a cleanup, and what it gives back. `reads_freed` is a read of memory that was given back.
pub data Cleanup : Type 0 where
  cleaned : Bool → List Release → Cleanup
  reads_freed : List Release → Cleanup

-- The assertions are compiled out: NDEBUG is defined.
unfoldable pub input_buffer_free : InputBuffer → List Release
input_buffer_free b = free_bytes ∷ free_buffer ∷ []

unfoldable pub common_getfd : CommonHandler → ℕ
common_getfd h = h.fd

-- Where close() fails, the handler and its private data stay.
unfoldable pub common_cleanup : (ℕ → Bool) → CommonHandler → Cleanup
common_cleanup close h =
    let freed = input_buffer_free h.inbuf in
    if close h.fd
    then cleaned true (freed ++ close_fd h.fd ∷ free_priv ∷ free_handler ∷ [])
    else cleaned false (freed ++ close_fd h.fd ∷ [])

unfoldable pub tcp_getfd : ℕ → ℕ
tcp_getfd fd = fd

-- The private data, in which the descriptor is, are given back first.
unfoldable pub tcp_cleanup : ℕ → Cleanup
tcp_cleanup fd = reads_freed (free_priv ∷ [])

-- the descriptors that a cleanup closes
unfoldable pub closed : List Release → List ℕ
closed [] = []
closed (close_fd fd ∷ rest) = fd ∷ closed rest
closed (free_bytes ∷ rest) = closed rest
closed (free_buffer ∷ rest) = closed rest
closed (free_priv ∷ rest) = closed rest
closed (free_handler ∷ rest) = closed rest

unfoldable pub closed_by : Cleanup → List ℕ
closed_by (cleaned b released) = closed released
closed_by (reads_freed released) = closed released

-- The cleanup of a handler closes its descriptor and no other, whether or not close() succeeds.
pub common_cleanup-closes :
    (close : ℕ → Bool) (h : CommonHandler)
    → closed_by (common_cleanup close h) ≡ common_getfd h ∷ []
unfolding common_cleanup input_buffer_free closed closed_by common_getfd
common_cleanup-closes close h = ground arith
