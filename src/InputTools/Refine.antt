-- ===== src/InputTools/Refine.antt =====
-- One call of `input_handler_common_read` implements the assembler.
use genbuf.Prelude.{
  ℕ, ◌+◌, ◌≤◌, ◌<◌, ◌≡◌, refl, ap, ◌∙◌, List, [], ◌∷◌, ◌++◌, arith, length, length-append, none,
  some, inl, inr, ◌==◌, Bool-cases, ◌≢◌,
}
use genbuf.Sys.{got}
use genbuf.InputBuffer.{min_of, store, update, purgeline}
use genbuf.InputBuffer.Shape.{Holds, Holds-size, Holds-write, size}
use genbuf.InputBuffer.Fill.{update-Holds, update_frame}
use genbuf.InputBuffer.Line.{take_line, take_line_cases}
use genbuf.InputBuffer.Purge.{purgeline-none, purgeline-some}
use genbuf.InputTools.{
  CommonHandler, is_ready, is_err, is_eof, Answer, Outcome, returned, status_ok, fuel_for,
  report_lines, after_update, common_read,
}
use genbuf.InputTools.Assembler.{Mode, collecting, skipping, feed, split_lines}
use genbuf.InputTools.Kept.{settle, take_line-rest, feed_collecting, feed_skipping, take_line-nil}
use genbuf.InputTools.Drain.{drain-Holds}

-- A handler with a buffer of `n` bytes is in the given mode.
abbrev pub Models : ℕ → CommonHandler → Mode → Type 0
Models n h (collecting xs) =
    (h.state ≡ is_ready)
    × Holds h.inbuf xs
    × (take_line xs ≡ none)
    × (length xs < n)
    × (size h.inbuf ≡ n)
Models n h skipping =
    (h.state ≡ is_err) × Holds h.inbuf [] × (h.inbuf.border ≡ h.inbuf.start) × (size h.inbuf ≡ n)

-- the same source: on the descriptor, with the memory of its buffer
abbrev pub SameSource : CommonHandler → CommonHandler → Type 0
SameSource h h' = (h'.fd ≡ h.fd) × (h'.inbuf.start ≡ h.inbuf.start)

-- `out` is a return of the handler with status 0 and these lines, in this mode.
abbrev pub Reports : ℕ → CommonHandler → Mode × List (List ℕ) → Outcome → Type 0
Reports n h (m, lines) out =
    (h' : CommonHandler) × (out ≡ returned status_ok h' lines) × Models n h' m × SameSource h h'

Reports-from :
    (n : ℕ) (h h' : CommonHandler) (m : Mode) (lines : List (List ℕ)) (out : Outcome)
    → SameSource h h'
    → Reports n h' (m, lines) out
    → Reports n h (m, lines) out
Reports-from n h h' m lines out (fd, start) (r, e, v, (fd', start')) =
    (r, e, v, (fd' ∙ fd, start' ∙ start))

length-rest : (xs : List ℕ) → length (split_lines xs).1 ≤ length xs
unfolding split_lines
length-rest [] = omega arith
length-rest (x ∷ xs) = ground (arith, length-rest xs)

report_lines_lem :
    (n : ℕ) (h : CommonHandler) (xs : List ℕ)
    → 0 < n
    → h.state ≡ is_ready
    → Holds h.inbuf xs
    → size h.inbuf ≡ n
    → Reports n h (settle n (split_lines xs).1, (split_lines xs).0) (report_lines h)
unfolding report_lines
report_lines_lem n h xs z ready held sized =
    let (b, run, kept, same) =
      drain-Holds (fuel_for h.inbuf) xs held (omega (arith, Holds-size held)) in
    let total = Holds-size kept in
    let sized' : size b ≡ n = omega arith in
    let (gone, empty, at, block) = purgeline-none kept (take_line-rest xs) in
    elim (Bool-cases (length (split_lines xs).1 == n)) [
      | inl full ↦ rw full (
        record h { inbuf = (purgeline b).1; state = is_err },
        ground arith,
        (refl, empty, ground arith, omega arith),
        (refl, block.start_same ∙ same.start_same),
      )
      | inr space ↦ rw space (
        record h { inbuf = b },
        ground arith,
        (ready, kept, take_line-rest xs, ground arith, sized'),
        (refl, same.start_same),
      )
    ]

-- the end of a read, once `update` has taken the bytes
purge_remainder :
    (n : ℕ) (h : CommonHandler) (ys : List ℕ)
    → length ys < n
    → h.state ≡ is_err
    → Holds h.inbuf ys
    → h.inbuf.border ≡ h.inbuf.start
    → size h.inbuf ≡ n
    → Reports n h (feed n skipping ys) (after_update h)
unfolding after_update
purge_remainder n h ys k bad held at sized = elim (take_line_cases ys) [
  | inl (a, e) ↦
      let (gone, empty, at', block) = purgeline-none held a in
      let fed : feed n skipping ys ≡ (skipping, []) = rw (feed_skipping n ys, a) in
      rw (fed, bad, gone)
        (
          record h { inbuf = (purgeline h.inbuf).1; state = is_err },
          refl,
          (refl, empty, ground arith, omega arith),
          (refl, block.start_same),
        )
  | inr (l, r, a, q, e, p) ↦
      let total : length ys ≡ length l + length r = ap length q ∙ length-append l r in
      let (done, kept, block) = purgeline-some l r held a (omega arith) in
      let fed : feed n skipping ys ≡ (settle n (split_lines r).1, (split_lines r).0) =
        rw (feed_skipping n ys, a)
          (feed_collecting n [] r (omega arith) take_line-nil (omega arith)) in
      rw (fed, bad, done)
        (Reports-from n h (record h { inbuf = (purgeline h.inbuf).1; state = is_ready }) _ _ _
          (refl, block.start_same)
          (report_lines_lem n (record h { inbuf = (purgeline h.inbuf).1; state = is_ready }) r
            (omega arith) refl kept (omega arith)))
]

after_update_lem :
    (n : ℕ) (h : CommonHandler) (m : Mode) (ys : List ℕ)
    → 0 < n
    → Models n h m
    → length ys ≤ h.inbuf.write
    → (m ≡ skipping → length ys < n)
    → Reports n h
        (feed n m ys)
        (after_update (record h { inbuf = update (store h.inbuf ys) (length ys) }))
unfolding after_update
after_update_lem n h (collecting xs) ys z (ready, held, a, k, sized) w s =
    let frame = update_frame h.inbuf ys (length ys) in
    let total = Holds-size held in
    let free = Holds-write held (omega arith) in
    rw (feed_collecting n xs ys k a (omega arith), ready)
      (Reports-from n h (record h { inbuf = update (store h.inbuf ys) (length ys) }) _ _ _
        (refl, frame.0)
        (report_lines_lem n (record h { inbuf = update (store h.inbuf ys) (length ys) }) (xs ++ ys)
          z ready (update-Holds ys held w) (omega arith)))
after_update_lem n h skipping ys z (bad, held, at, sized) w s =
    let frame = update_frame h.inbuf ys (length ys) in
    Reports-from n h (record h { inbuf = update (store h.inbuf ys) (length ys) }) _ _ _
      (refl, frame.0)
      (purge_remainder n (record h { inbuf = update (store h.inbuf ys) (length ys) }) ys (s refl)
        bad (update-Holds ys held w) (omega arith) (omega arith))

-- the kernel has some bytes, and hands over some of them, no more than it is asked for
pub record Delivers (a : Answer) (h : CommonHandler) (chunk : List ℕ) : Type 0 where
  pub ready : ℕ
  pub reported : a.fionread ≡ some ready
  pub some_ready : 0 < ready
  pub result : a.read (min_of h.inbuf.write ready) ≡ got chunk
  pub some_read : 0 < length chunk
  pub within : length chunk ≤ min_of h.inbuf.write ready

pub open_lem :
    (n : ℕ) (h : CommonHandler) (a : Answer) (chunk : List ℕ)
    → h.state ≢ is_eof
    → 0 < h.inbuf.write
    → 0 < h.inbuf.available
    → Delivers a h chunk
    → common_read a h
      ≡ after_update (record h { inbuf = update (store h.inbuf chunk) (length chunk) })
unfolding common_read
open_lem n h a [] o w f d = absurd (omega (arith, d.some_read))
open_lem n h a (c ∷ cs) o w f d = ground (arith, d.reported, d.result, d.some_ready)

pub held_bytes : Mode → List ℕ
held_bytes (collecting xs) = xs
held_bytes skipping = []

pub Models-held :
    (n : ℕ) (h : CommonHandler) (m : Mode) → Models n h m → Holds h.inbuf (held_bytes m)
unfolding held_bytes
Models-held n h (collecting xs) v = v.1
Models-held n h skipping v = v.1

pub Models-open :
    (n : ℕ) (h : CommonHandler) (m : Mode)
    → 0 < n
    → Models n h m
    → (h.state ≢ is_eof) × (0 < h.inbuf.available)
Models-open n h (collecting xs) z v = (λ e. cc, omega (arith, Holds-size v.1))
Models-open n h skipping z v = (λ e. cc, omega (arith, Holds-size v.1))

-- A read of some bytes, by a handler whose buffer is not of size 0 and holds what the assembler's mode
-- says, feeds them to the assembler: it returns 0, reports the same lines, stays in the same mode as
-- the assembler, on its descriptor and in its memory, and aborts on no `Require` or `Fatal`. While a long line is being skipped, the
-- condition is that the bytes are fewer than the buffer has.
pub read_refines :
    (n : ℕ) (h : CommonHandler) (m : Mode) (a : Answer) (chunk : List ℕ)
    → 0 < n
    → Models n h m
    → Delivers a h chunk
    → (m ≡ skipping → length chunk < n)
    → Reports n h (feed n m chunk) (common_read a h)
read_refines n h m a chunk z v d s =
    let (open_state, f) = Models-open n h m z v in
    let (w, le) = Holds-write (Models-held n h m v) f in
    rw (open_lem n h a chunk open_state w f d)
      (after_update_lem n h m chunk z v (ground (arith, d.within)) s)

-- A handler that is not at its end has room for a read.
pub Models-write : (n : ℕ) (h : CommonHandler) (m : Mode) → 0 < n → Models n h m → 0 < h.inbuf.write
Models-write n h m z v = (Holds-write (Models-held n h m v) (Models-open n h m z v).1).0
