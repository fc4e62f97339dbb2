-- ===== src/Output/Write.antt =====
-- `output_handler_common_write`: what it sends, and the state in which it leaves the handler.
pub mod Chunks
pub mod Whole
use genbuf.Prelude.{
  ℕ, zero, suc, ◌+◌, ◌-◌, ◌≤◌, ◌<◌, ◌≡◌, ◌≢◌, refl, ap, ◌∙◌, true, false, List, [], ◌++◌,
  append_assoc, append-nil, arith, length, drop, ◌==◌, inl, inr, ◌⊎◌, ◌↔◌, le→ltb, eq→==, take_add,
  take_all, drop_add,
}
use genbuf.Sys.{Errno, success}
use genbuf.Output.Command.{World, Run, ok, aborted, out_of_fuel, tick}
use native.Mathlib.Decide.{dec_lt}
use genbuf.Output.{
  written, log, Env, WriteResult, wrote, write_failed, OutputHandler, os_ready, os_sending,
  os_error, can_write, Written, ends_line, chunk, check_errno, write_loop, common_write,
}
use genbuf.Output.Write.Chunks.{
  Obeys, Accepts, Sends, chunk_split, chunk_none, chunk_whole, check_errno-Sends,
}

module _ (env : Env) (rounds : ℕ) (h : OutputHandler) (msg : List ℕ) (todo : ℕ) (w : World) where
  abbrev pub after_write : ℕ → World
  after_write k = log (chunk msg todo k) (tick w)

  loop_ends :
      (e : Errno)
      → (env.write w.clock todo ≡ write_failed e)
        ⊎ ((env.write w.clock todo ≡ wrote 0) × (e ≡ success))
      → write_loop env (suc rounds) h msg todo w ≡ ok (check_errno h todo e) (tick w)
  unfolding write_loop
  loop_ends e (inl q) = rw (q, write_loop)
  loop_ends e (inr (q, s)) = rw (q, s, write_loop)

  pub loop_last :
      (k : ℕ)
      → env.write w.clock todo ≡ wrote (suc k)
      → suc k ≡ todo
      → write_loop env (suc rounds) h msg todo w
        ≡ ok (written true (record h { state = os_ready }) 0) (after_write (suc k))
  unfolding write_loop
  loop_last k q e =
      rw (q, write_loop)
        (rw (le→ltb todo (suc k) (omega arith), eq→== (todo - suc k) 0 (omega arith)))

  pub loop_more :
      (k : ℕ)
      → env.write w.clock todo ≡ wrote (suc k)
      → suc k < todo
      → write_loop env (suc rounds) h msg todo w
        ≡ write_loop env rounds
            (record h { state = os_sending })
            msg
            (todo - suc k)
            (after_write (suc k))
  unfolding write_loop
  loop_more k q e =
      let left : ((todo - suc k) == 0) ≡ false = ground arith in
      rw (q, write_loop) (rw (le→ltb todo (suc k) (omega arith), left))

  -- a write() of a part, and what the loop sends behind it
  Sends-more :
      (k : ℕ)
      → todo ≤ length msg
      → suc k < todo
      → env.write w.clock todo ≡ wrote (suc k)
      → Sends
          (record h { state = os_sending })
          msg
          (todo - suc k)
          (after_write (suc k))
          (write_loop env rounds
            (record h { state = os_sending })
            msg
            (todo - suc k)
            (after_write (suc k)))
      → Sends h msg todo w (write_loop env (suc rounds) h msg todo w)
  Sends-more k l lt q rest =
      let n = todo - suc k - rest.result.todo in
      let total : suc k + n ≡ todo - rest.result.todo = omega (arith, rest.left) in
      record {
        result = rest.result;
        world = rest.world;
        ends = loop_more k q lt ∙ rest.ends;
        left = omega (arith, rest.left);
        sent =
            rest.sent
            ∙ append_assoc w.sent (chunk msg todo (suc k)) (chunk msg (todo - suc k) n)
            ∙ ap (◌++◌ w.sent)
                (chunk_split msg todo (suc k) n (omega arith) l ∙ ap (chunk msg todo) total);
        whole = rest.whole;
        ready = rest.ready;
        unfinished = rest.unfinished;
        fd = rest.fd;
        retry = rest.retry;
      }

  Sends-last :
      (k : ℕ)
      → suc k ≡ todo
      → env.write w.clock todo ≡ wrote (suc k)
      → Sends h msg todo w (write_loop env (suc rounds) h msg todo w)
  Sends-last k e q = record {
    result = written true (record h { state = os_ready }) 0;
    world = after_write (suc k);
    ends = loop_last k q e;
    left = omega arith;
    sent = ap (λ t. w.sent ++ chunk msg todo t) (omega arith);
    whole = (λ p. refl, λ p. refl);
    ready = λ p. refl;
    unfinished = λ p. cc;
    fd = refl;
    retry = refl;
  }

Sends-ends :
    {h : OutputHandler} {msg : List ℕ} {todo : ℕ} {w : World} {r r' : Run Written}
    → r ≡ r'
    → Sends h msg todo w r'
    → Sends h msg todo w r
Sends-ends e s = record {
  result = s.result;
  world = s.world;
  ends = e ∙ s.ends;
  left = s.left;
  sent = s.sent;
  whole = s.whole;
  ready = s.ready;
  unfinished = s.unfinished;
  fd = s.fd;
  retry = s.retry;
}

module _ (env : Env) (o : Obeys env) where
  -- the loop, with a round for each byte and one more
  write_loop-Sends :
      (rounds : ℕ) (h : OutputHandler) (msg : List ℕ) (todo : ℕ) (w : World)
      → todo ≤ length msg
      → todo ≢ 0
      → todo < rounds
      → Sends h msg todo w (write_loop env rounds h msg todo w)
  write_loop-Sends zero h msg todo w l nz k = absurd (omega arith)
  write_loop-Sends (suc rounds) h msg todo w l nz k =
      by_result (env.write w.clock todo) refl (λ j lt.
        write_loop-Sends rounds (record h { state = os_sending }) msg (todo - suc j)
          (after_write env rounds h msg todo w (suc j)) (omega arith) (omega arith) (omega arith))
    where
      by_result :
          (r : WriteResult)
          → env.write w.clock todo ≡ r
          → ((j : ℕ)
              → suc j < todo
              → Sends
                  (record h { state = os_sending })
                  msg
                  (todo - suc j)
                  (after_write env rounds h msg todo w (suc j))
                  (write_loop env rounds
                    (record h { state = os_sending })
                    msg
                    (todo - suc j)
                    (after_write env rounds h msg todo w (suc j))))
          → Sends h msg todo w (write_loop env (suc rounds) h msg todo w)
      by_result (write_failed e) q more =
          Sends-ends (loop_ends env rounds h msg todo w e (inl q))
            (check_errno-Sends h msg todo w e nz)
      by_result (wrote zero) q more =
          Sends-ends (loop_ends env rounds h msg todo w success (inr (q, refl)))
            (check_errno-Sends h msg todo w success nz)
      by_result (wrote (suc j)) q more = elim (dec_lt (suc j) todo) [
        | yes lt ↦ Sends-more env rounds h msg todo w j l lt q (more j lt)
        | no ge ↦ Sends-last env rounds h msg todo w j (omega (arith, o w.clock todo (suc j) q)) q
      ]

-- From `ready` or `sending` a write of a line, with a byte of it to do at least, ends without an abort,
-- if write() takes no more bytes than it is given. What it sends is the next part of
-- the message, from the first byte still to do on, in order and without a gap; it returns TRUE
-- exactly when the message is sent to its end, the handler then is ready, and otherwise it is sending or
-- in the error state.
pub common_write-Sends :
    (env : Env) (h : OutputHandler) (msg : List ℕ) (todo : ℕ) (w : World)
    → Obeys env
    → can_write h.state ≡ true
    → ends_line msg ≡ true
    → todo ≤ length msg
    → todo ≢ 0
    → Sends h msg todo w (common_write env h msg todo w)
unfolding common_write
common_write-Sends env h msg todo w o can line l nz =
    rw (can, line) (write_loop-Sends env o (suc todo) h msg todo w l nz (omega arith))
