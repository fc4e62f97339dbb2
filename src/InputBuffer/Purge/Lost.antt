-- ===== src/InputBuffer/Purge/Lost.antt =====
-- A purge whose line ends at the end of the memory, and the read behind it.
use genbuf.Prelude.{
  ℕ, ◌+◌, ◌-◌, ◌<◌, ◌≤◌, ◌≡◌, ◌∙◌, ap, true, false, List, [], ◌∷◌, arith, length, none, some, inl,
  inr,
}
use genbuf.InputBuffer.{
  InputBuffer, newline, memchr, bytes, index_of, find, store, update, getline, purgeline,
}
use genbuf.InputBuffer.Shape.{Holds, flat, wrapped, size}
use genbuf.InputBuffer.Fill.{update-Holds, update_frame}
use genbuf.InputBuffer.Search.{find-Holds}
use genbuf.InputBuffer.Line.{take_line, take_line_cases}

empty_fields :
    {b : InputBuffer}
    → Holds b []
    → (b.current ≡ b.border) × (b.available ≡ size b) × (b.start ≤ b.border) × (b.border < b.end)
empty_fields (flat pre post f) = omega arith
empty_fields (wrapped head gap [] e w) = absurd (omega arith)
empty_fields (wrapped head gap (x ∷ tail) e w) = absurd (cc)

empty_write : {b : InputBuffer} → Holds b [] → b.border ≡ b.start → b.write ≡ size b
empty_write (flat pre post f) h = omega arith
empty_write (wrapped head gap [] e w) h = absurd (omega arith)
empty_write (wrapped head gap (x ∷ tail) e w) h = absurd (cc)

found_whole :
    (b : InputBuffer) (chunk : List ℕ)
    → Holds b chunk
    → take_line chunk ≡ some (chunk, [])
    → find b newline ≡ some (length chunk)
found_whole b chunk h e = elim (take_line_cases chunk) [
  | inl (a, n) ↦ absurd (cc)
  | inr (l, r, a, q, n, p) ↦
      let el : l ≡ chunk = ground arith in
      rw (← el) (rw (el, find-Holds newline h) (n ∙ ap (λ t. some (length t)) el))
]

-- The rest of a long line fills an empty buffer to its last byte: `purgeline` leaves it empty, with
-- `border` at the end of the memory.
pub record AtEnd (n : ℕ) (b : InputBuffer) : Type 0 where
  pub border_end : b.border ≡ b.end
  pub current_start : b.current ≡ b.start
  pub ordered : b.start ≤ b.end
  pub all_free : b.available ≡ n
  pub all_write : b.write ≡ n
  pub sized : size b ≡ n

pub purged-AtEnd :
    (n : ℕ) (b : InputBuffer) (chunk : List ℕ)
    → 0 < n
    → Holds b []
    → b.border ≡ b.start
    → size b ≡ n
    → length chunk ≡ n
    → take_line chunk ≡ some (chunk, [])
    → let b' = update (store b chunk) (length chunk) in
      ((purgeline b').0 ≡ true) × AtEnd n (purgeline b').1
unfolding update store purgeline
purged-AtEnd n b chunk z held at sized e whole =
    let fields = empty_fields held in
    let frame = update_frame b chunk (length chunk) in
    let found =
      found_whole (update (store b chunk) (length chunk)) chunk
        (update-Holds chunk held (omega (arith, empty_write held at))) whole in
    (
      ground (arith, found),
      record {
        border_end = ground (arith, found);
        current_start = ground (arith, found);
        ordered = ground (arith, found);
        all_free = ground (arith, found);
        all_write = ground (arith, found);
        sized = ground (arith, found);
      },
    )

memchr_empty : (b : InputBuffer) (p c : ℕ) {n : ℕ} → n ≡ 0 → memchr b p c n ≡ none
unfolding memchr bytes index_of
memchr_empty b p c e = rw (e, memchr)

-- a buffer with `border` at the end of the memory and `current` at its start is not searched
find_outside :
    (b : InputBuffer) (c : ℕ)
    → b.border ≡ b.end
    → b.current ≡ b.start
    → b.start ≤ b.end
    → find b c ≡ none
unfolding find
find_outside b c e1 e2 h =
    let tail = memchr_empty b b.border c {n = b.end - b.border} (omega arith) in
    let head = memchr_empty b b.start c {n = b.current - b.start} (omega arith) in ground arith

pub getline-AtEnd : {n : ℕ} {b : InputBuffer} → AtEnd n b → getline b ≡ (none, b)
unfolding getline
getline-AtEnd {b = b} e =
    rw (find_outside b newline e.border_end e.current_start e.ordered, getline)

full_round :
    (b : InputBuffer) (ys : List ℕ)
    → b.border ≡ b.end
    → b.current ≡ b.start
    → b.start ≤ b.end
    → length ys ≡ size b
    → let b' = update (store b ys) (length ys) in
      (b'.border ≡ b'.end) × (b'.current ≡ b'.start) × (b'.start ≤ b'.end)
unfolding update store
full_round b ys e1 e2 h e3 = ground arith

-- The first fault: a line that ends at the end of the memory leaves `border` there, and not at the
-- start as `getline` does. From an empty buffer that is left so, a read of as many bytes as the
-- memory has is lost: whatever the bytes, no byte is found among them, `getline` returns NULL and
-- `purgeline` drops them all.
pub lost_after_purge :
    (b : InputBuffer) (ys : List ℕ)
    → b.border ≡ b.end
    → b.current ≡ b.start
    → b.start ≤ b.end
    → length ys ≡ size b
    → let b' = update (store b ys) (length ys) in
      ((c : ℕ) → find b' c ≡ none) × (getline b' ≡ (none, b')) × ((purgeline b').0 ≡ false)
unfolding getline purgeline
lost_after_purge b ys e1 e2 e3 e4 =
    let (p, q, h) = full_round b ys e1 e2 e3 e4 in
    let missing = λ (c : ℕ). find_outside (update (store b ys) (length ys)) c p q h in
    (missing, rw (missing newline, getline), rw (missing newline, purgeline))

-- The second fault: of a line that goes on at the start of the memory, `purgeline` puts `border` as
-- far before the start as the line reaches behind it.
pub purgeline_past_end :
    (b : InputBuffer) (len : ℕ)
    → find b newline ≡ some len
    → b.end < b.border + len
    → size b < b.start
    → len ≤ size b
    → b.border ≤ b.end
    → (purgeline b).1.border + (b.border + len - b.end) ≡ b.start
unfolding purgeline
purgeline_past_end b len f h = ground arith
