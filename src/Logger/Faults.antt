-- ===== src/Logger/Faults.antt =====
-- What the logger does where the reader ends while the destination fails.
use genbuf.Prelude.{
  ℕ, zero, suc, ◌<◌, ◌≡◌, refl, sym, ◌∙◌, true, false, Option, none, some, List, [], ◌∷◌, ◌++◌,
  append_assoc, append-nil, arith, length,
}
use genbuf.Logger.{
  Msg, Calls, State, crashed, stops, puts_ok, content, wrote_end, end_with, write_loop, write_open,
  write_backlog, append_line, after_write, retry, move_queue, behind, failed_from, unsent,
  on_delivery, turn_with, turn,
}

-- messages, and the reader's mark behind them
abbrev pub marked : List Msg → List (Option Msg) → List (Option Msg)
marked [] q = none ∷ q
marked (m ∷ ms) q = some m ∷ marked ms q

-- the queue is written up to the reader's mark
write_loop-ends :
    {H : Type 0} (c : Calls H) (ms : List Msg) (n : ℕ) (q : List (Option Msg)) (s : State H)
    → ((t : ℕ) → c.fputs t ≡ puts_ok)
    → s.queue ≡ marked ms q
    → length ms < n
    → (s' : State H) × (write_loop c n s ≡ wrote_end s')
      × (content s'.file ≡ content s.file ++ ms)
      × (s'.backlog_out ≡ false)
unfolding write_loop
write_loop-ends c [] zero q s ok e k = absurd (omega arith)
write_loop-ends c (m ∷ ms) zero q s ok e k = absurd (omega arith)
write_loop-ends c [] (suc n) q s ok e k = (
  record s { queue = q; backlog_out = false },
  rw (e, write_loop) refl,
  sym (append-nil (content s.file)),
  refl,
)
write_loop-ends c (m ∷ ms) (suc n) q s ok e k =
    let s1 = append_line (record s { queue = marked ms q; clock = suc s.clock }) m in
    let (s', run, all, shut) = write_loop-ends c ms n q s1 ok refl (omega arith) in
    (
      s',
      rw (e, write_loop) (rw (ok s.clock) run),
      all ∙ append_assoc (content s.file) (m ∷ []) ms,
      shut,
    )

-- Where a message is not sent, the backlog is being read and written, and the reader has ended, so that
-- its mark is among the messages that the semaphore counts, the logger crashes: it closes the stream a
-- second time. It has written all messages before the mark to the file by then.
pub mark_behind-crashes :
    {H : Type 0} (c : Calls H) (s : State H) (m : Msg) (h : H) (p : ℕ) (ms : List Msg)
    (q : List (Option Msg))
    → ((t : ℕ) → c.fputs t ≡ puts_ok)
    → s.msg ≡ some m
    → s.backlog_in ≡ some p
    → s.backlog_out ≡ true
    → c.deliver s.clock s.dest m ≡ some (false, h)
    → s.queue ≡ marked ms q
    → length ms < c.size (suc s.clock)
    → (s' : State H) × (turn c s ≡ stops crashed s') × (content s'.file ≡ content s.file ++ ms)
unfolding turn turn_with on_delivery unsent failed_from behind move_queue retry after_write end_with
    write_backlog write_open
mark_behind-crashes c s m h p ms q ok at_msg reading out failed e k =
    let s1 = record s { dest = h; clock = suc (suc s.clock) } in
    let (s', run, all, shut) = write_loop-ends c ms (c.size (suc s.clock)) q s1 ok e k in
    (s', ground (arith, failed, run, shut), all)
