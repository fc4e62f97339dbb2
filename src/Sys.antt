-- ===== src/Sys.antt =====
-- What the operating system answers, as the source tells the answers apart.
use genbuf.Prelude.{ℕ, List}

-- The values of errno that the source names; `other` is any value besides.
pub data Errno : Type 0 where
  success : Errno
  eagain : Errno
  eintr : Errno
  epipe : Errno
  ebadf : Errno
  eisconn : Errno
  einprogress : Errno
  ealready : Errno
  other : Errno

-- -1 with errno, or the bytes; no bytes is the result 0.
pub data ReadResult : Type 0 where
  failed : Errno → ReadResult
  got : List ℕ → ReadResult
