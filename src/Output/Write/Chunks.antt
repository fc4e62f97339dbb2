-- ===== src/Output/Write/Chunks.antt =====
-- What `output_handler_common_write` is to send: the bytes of a message from the first one still to do.
use genbuf.Prelude.{
  ℕ, suc, ◌+◌, ◌-◌, ◌≤◌, ◌≡◌, ◌≢◌, refl, true, false, List, [], ◌++◌, append-nil, arith, length,
  drop, ◌⊎◌, ◌↔◌, take_add, take_all, drop_add,
}
use genbuf.Sys.{Errno}
use genbuf.Output.Command.{World, Run, ok, tick}
use genbuf.Output.{
  Env, wrote, OutputHandler, os_ready, os_sending, os_error, Written, chunk, check_errno,
}

-- write() takes no more bytes than it is given.
abbrev pub Obeys : Env → Type 0
Obeys env = (t n k : ℕ) → env.write t n ≡ wrote k → k ≤ n

-- write() takes a byte at least, where it is given one.
abbrev pub Accepts : Env → Type 0
Accepts env = (t n : ℕ) → n ≢ 0 → (k : ℕ) × (env.write t n ≡ wrote (suc k))

-- From `todo` bytes to do the run ends, with the bytes logged that are done since; it reports success
-- exactly when none is left.
pub record Sends (h : OutputHandler) (msg : List ℕ) (todo : ℕ) (w : World) (r : Run Written)
    : Type 0 where
  pub result : Written
  pub world : World
  pub ends : r ≡ ok result world
  pub left : result.todo ≤ todo
  pub sent : world.sent ≡ w.sent ++ chunk msg todo (todo - result.todo)
  pub whole : (result.done ≡ true) ↔ (result.todo ≡ 0)
  pub ready : result.done ≡ true → result.handler.state ≡ os_ready
  pub unfinished :
      result.done ≡ false → (result.handler.state ≡ os_sending) ⊎ (result.handler.state ≡ os_error)
  pub fd : result.handler.fd ≡ h.fd
  pub retry : result.handler.retry ≡ h.retry

pub chunk_split :
    (msg : List ℕ) (todo a b : ℕ)
    → a + b ≤ todo
    → todo ≤ length msg
    → chunk msg todo a ++ chunk msg (todo - a) b ≡ chunk msg todo (a + b)
unfolding chunk
chunk_split msg todo a b h k =
    let from : length msg - (todo - a) ≡ length msg - todo + a = omega arith in
    rw (from, ← drop_add a (length msg - todo) msg) (take_add a b (drop (length msg - todo) msg))

check_errno_lem :
    (h : OutputHandler) (todo : ℕ) (e : Errno)
    → let r = check_errno h todo e in
      (r.done ≡ false)
      × (r.todo ≡ todo)
      × ((r.handler.state ≡ os_sending) ⊎ (r.handler.state ≡ os_error))
      × (r.handler.fd ≡ h.fd)
      × (r.handler.retry ≡ h.retry)
unfolding check_errno
check_errno_lem h todo e = ground arith

pub chunk_none : (msg : List ℕ) (todo : ℕ) {n : ℕ} → n ≡ 0 → chunk msg todo n ≡ []
unfolding chunk
chunk_none msg todo e = rw e

pub chunk_whole : (msg : List ℕ) → chunk msg (length msg) (length msg) ≡ msg
unfolding chunk
chunk_whole msg =
    let start : length msg - length msg ≡ 0 = omega arith in
    rw start (take_all (length msg) msg (omega arith))

pub check_errno-Sends :
    (h : OutputHandler) (msg : List ℕ) (todo : ℕ) (w : World) (e : Errno)
    → todo ≢ 0
    → Sends h msg todo w (ok (check_errno h todo e) (tick w))
check_errno-Sends h msg todo w e nz =
    let (undone, same, state, fd, retry) = check_errno_lem h todo e in
    let none_sent = chunk_none msg todo {n = todo - (check_errno h todo e).todo} (omega arith) in
    record {
      result = check_errno h todo e;
      world = tick w;
      ends = refl;
      left = omega arith;
      sent = rw (none_sent, append-nil);
      whole = (λ p. cc, λ p. absurd (omega arith));
      ready = λ p. cc;
      unfinished = λ p. state;
      fd = fd;
      retry = retry;
    }
