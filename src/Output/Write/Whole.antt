-- ===== src/Output/Write/Whole.antt =====
-- `output_handler_common_write` where write() always takes a byte at least.
use genbuf.Prelude.{ℕ, zero, suc, ◌-◌, ◌<◌, ◌≡◌, ◌≢◌, ap, ◌∙◌, true, List, ◌++◌, arith, length}
use genbuf.Output.Command.{World, Run, ok, aborted, out_of_fuel}
use native.Mathlib.Decide.{dec_lt}
use genbuf.Output.{
  Env, OutputHandler, os_sending, can_write, Written, ends_line, chunk, write_loop, common_write,
}
use genbuf.Output.Write.Chunks.{Obeys, Accepts, chunk_whole}
use genbuf.Output.Write.{after_write, loop_last, loop_more, common_write-Sends}

abbrev IsDone : Run Written → Type 0
IsDone (ok r w) = r.done ≡ true
IsDone aborted = ⊥
IsDone out_of_fuel = ⊥

module _ (env : Env) (o : Obeys env) (a : Accepts env) where
  write_loop-IsDone :
      (rounds : ℕ) (h : OutputHandler) (msg : List ℕ) (todo : ℕ) (w : World)
      → todo ≢ 0
      → todo < rounds
      → IsDone (write_loop env rounds h msg todo w)
  write_loop-IsDone zero h msg todo w nz k = absurd (omega arith)
  write_loop-IsDone (suc rounds) h msg todo w nz k =
      let (j, q) = a w.clock todo nz in
      elim (dec_lt (suc j) todo) [
        | yes lt ↦ rw (loop_more env rounds h msg todo w j q lt) (
            write_loop-IsDone rounds (record h { state = os_sending }) msg (todo - suc j)
              (after_write env rounds h msg todo w (suc j)) (omega arith) (omega arith))
        | no ge ↦
            rw (loop_last env rounds h msg todo w j q (omega (arith, o w.clock todo (suc j) q)))
      ]

-- Where write() always takes a byte at least, a write sends the whole rest of the message.
pub common_write-whole :
    (env : Env) (h : OutputHandler) (msg : List ℕ) (w : World)
    → Obeys env
    → Accepts env
    → can_write h.state ≡ true
    → ends_line msg ≡ true
    → length msg ≢ 0
    → (r : Written) × (w' : World) × (common_write env h msg (length msg) w ≡ ok r w')
      × (r.done ≡ true)
      × (w'.sent ≡ w.sent ++ msg)
unfolding common_write
common_write-whole env h msg w o a can line nz =
    let s = common_write-Sends env h msg (length msg) w o can line (omega arith) nz in
    let loop = write_loop-IsDone env o a (suc (length msg)) h msg (length msg) w nz (omega arith) in
    let done : IsDone (common_write env h msg (length msg) w) = rw (can, line) loop in
    let sure : s.result.done ≡ true = rw s.ends at done in
    let all : length msg - s.result.todo ≡ length msg = omega (arith, s.whole.0 sure) in
    (
      s.result,
      s.world,
      s.ends,
      sure,
      s.sent
          ∙ ap (λ n. w.sent ++ chunk msg (length msg) n) all
          ∙ ap (◌++◌ w.sent) (chunk_whole msg),
    )
