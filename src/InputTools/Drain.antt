-- ===== src/InputTools/Drain.antt =====
-- The loop of `input_handler_common_read` over `getline`.
use genbuf.Prelude.{
  ℕ, zero, suc, ◌<◌, ◌≡◌, ap, List, arith, length, length-append, none, some, inl, inr,
}
use genbuf.InputBuffer.{InputBuffer, getline}
use genbuf.InputBuffer.Shape.{Holds, SameBlock}
use genbuf.InputBuffer.Line.{take_line_cases, LineOut, getline-LineOut}
use genbuf.InputTools.{drain}
use genbuf.InputTools.Assembler.{split_lines, split_lines-none, split_lines-some}

-- With a round for each byte held and one more the loop ends; it has returned every complete line of
-- the bytes held, and the buffer holds what follows the last newline.
pub drain-Holds :
    (fuel : ℕ) {b : InputBuffer} (xs : List ℕ)
    → Holds b xs
    → length xs < fuel
    → (b' : InputBuffer) × (drain fuel b ≡ some ((split_lines xs).0, b'))
      × Holds b' (split_lines xs).1
      × SameBlock b b'
unfolding drain
drain-Holds zero xs h k = absurd (omega arith)
drain-Holds (suc fuel) {b} xs h k = elim (take_line_cases xs) [
  | inl (a, n) ↦
      let out : LineOut b none (getline b) = rw a at (getline-LineOut h) in
      let e = split_lines-none xs a in (b, ground arith, rw e h, omega arith)
  | inr (l, r, a, e, n, p) ↦
      let out : LineOut b (some (l, r)) (getline b) = rw a at (getline-LineOut h) in
      let (b', run, held, same) =
        drain-Holds fuel r out.1 (omega (arith, ap length e, length-append l r)) in
      let q = split_lines-some xs l r a in (b', ground arith, rw q held, ground arith)
]
