-- ===== src/InputTools/Kept.antt =====
-- Which lines of a stream the assembler of `Assembler` reports.
use genbuf.Prelude.{
  ℕ, ◌+◌, ◌≤◌, ◌<◌, ◌≡◌, refl, List, [], ◌∷◌, ◌++◌, append_assoc, append-nil, arith, length,
  length-append, none, some, ◌==◌, leb, true, false, if◌then◌else◌, Bool-cases, inl, inr,
}
use genbuf.InputBuffer.{newline}
use genbuf.InputBuffer.Line.{take_line}
use genbuf.InputTools.Assembler.{
  Mode, collecting, skipping, accept, feed, split_lines, take_line-append, split_lines-none,
  split_lines-some,
}

-- the lines of at most `n` bytes, the newline included
unfoldable pub short : ℕ → List (List ℕ) → List (List ℕ)
short n [] = []
short n (l ∷ ls) = if leb (length l) n then l ∷ short n ls else short n ls

-- `p` is the part of a line that was read, in the given mode.
abbrev pub Unfinished : ℕ → Mode → List ℕ → Type 0
Unfinished n (collecting xs) p = (p ≡ xs) × (length p < n) × (take_line p ≡ none)
Unfinished n skipping p = (n ≤ length p) × (take_line p ≡ none)

-- a newline ends the line
pub split_hit :
    (p : List ℕ) (c : ℕ) (cs : List ℕ)
    → take_line p ≡ none
    → (c == newline) ≡ true
    → split_lines (p ++ c ∷ cs) ≡ ((p ++ c ∷ []) ∷ (split_lines cs).0, (split_lines cs).1)
unfolding take_line
split_hit p c cs h e =
    split_lines-some (p ++ c ∷ cs) (p ++ c ∷ []) cs (ground (arith, take_line-append p (c ∷ cs)))

pub take_line_miss :
    (p : List ℕ) (c : ℕ)
    → take_line p ≡ none
    → (c == newline) ≡ false
    → take_line (p ++ c ∷ []) ≡ none
unfolding take_line
take_line_miss p c h e = ground (arith, take_line-append p (c ∷ []))

-- one more byte of the line
pub snoc-append : (p : List ℕ) (c : ℕ) (cs : List ℕ) → (p ++ c ∷ []) ++ cs ≡ p ++ c ∷ cs
snoc-append p c cs = append_assoc p (c ∷ []) cs

pub take_line-nil : take_line [] ≡ none
unfolding take_line
take_line-nil = refl

-- From any point of a stream, the lines reported are the complete lines of at most `n` bytes, in
-- order, and the first of them counts with the part that was read before.
pub feed-short :
    (n : ℕ) (m : Mode) (p cs : List ℕ)
    → 0 < n
    → Unfinished n m p
    → (feed n m cs).1 ≡ short n (split_lines (p ++ cs)).0
unfolding feed accept short
feed-short n (collecting xs) p [] z u = rw (append-nil, split_lines-none p u.2)
feed-short n skipping p [] z u = rw (append-nil, split_lines-none p u.1)
feed-short n (collecting xs) p (c ∷ cs) z u = elim (Bool-cases (c == newline)) [
  | inl hit ↦ ground (
    arith,
    split_hit p c cs u.2 hit,
    length-append p (c ∷ []),
    feed-short n (collecting []) [] cs z (refl, z, take_line-nil),
  )
  | inr miss ↦ elim (Bool-cases ((length xs + 1) == n)) [
    | inl full ↦ ground (
      arith,
      snoc-append p c cs,
      feed-short n skipping (p ++ c ∷ []) cs z
          (ground (arith, length-append p (c ∷ [])), take_line_miss p c u.2 miss),
    )
    | inr space ↦ ground (
      arith,
      snoc-append p c cs,
      feed-short n (collecting (xs ++ c ∷ [])) (p ++ c ∷ []) cs z
          (rw (u.0), ground (arith, length-append p (c ∷ [])), take_line_miss p c u.2 miss),
    )
  ]
]
feed-short n skipping p (c ∷ cs) z u = elim (Bool-cases (c == newline)) [
  | inl hit ↦ ground (
    arith,
    split_hit p c cs u.1 hit,
    length-append p (c ∷ []),
    feed-short n (collecting []) [] cs z (refl, z, take_line-nil),
  )
  | inr miss ↦ ground (
    arith,
    snoc-append p c cs,
    feed-short n skipping (p ++ c ∷ []) cs z
        (omega (arith, length-append p (c ∷ [])), take_line_miss p c u.1 miss),
  )
]

-- what is left behind the last newline has no newline
pub take_line-rest : (xs : List ℕ) → take_line (split_lines xs).1 ≡ none
unfolding split_lines take_line
take_line-rest [] = refl
take_line-rest (x ∷ xs) = ground (arith, take_line-rest xs)

-- the mode in which a buffer of `n` bytes is left that holds `r`
abbrev pub settle : ℕ → List ℕ → Mode
settle n r = if length r == n then skipping else collecting r

-- Bytes that the buffer takes are fed to the assembler by a split into lines.
pub feed_collecting :
    (n : ℕ) (xs ys : List ℕ)
    → length xs < n
    → take_line xs ≡ none
    → length xs + length ys ≤ n
    → feed n (collecting xs) ys ≡ (settle n (split_lines (xs ++ ys)).1, (split_lines (xs ++ ys)).0)
unfolding feed accept
feed_collecting n xs [] h a k = let e = split_lines-none xs a in rw (append-nil) (ground arith)
feed_collecting n xs (c ∷ cs) h a k = elim (Bool-cases (c == newline)) [
  | inl hit ↦ ground (
    arith,
    split_hit xs c cs a hit,
    feed_collecting n [] cs (omega arith) take_line-nil (omega arith),
  )
  | inr miss ↦ elim (Bool-cases ((length xs + 1) == n)) [
    | inl full ↦
        let e : cs ≡ [] = nil_of_length cs (ground arith) in
        let q = split_lines-none (xs ++ c ∷ []) (take_line_miss xs c a miss) in
        let m = length-append xs (c ∷ []) in rw (e, miss, full, q) (ground arith)
    | inr space ↦ ground (
      arith,
      snoc-append xs c cs,
      length-append xs (c ∷ []),
      feed_collecting n (xs ++ c ∷ []) cs (ground (arith, length-append xs (c ∷ [])))
          (take_line_miss xs c a miss) (omega (arith, length-append xs (c ∷ []))),
    )
  ]
]
  where
    nil_of_length : (ys : List ℕ) → length ys ≡ 0 → ys ≡ []
    nil_of_length [] e = refl
    nil_of_length (y ∷ ys) e = absurd (omega arith)

pub feed_skipping :
    (n : ℕ) (ys : List ℕ)
    → feed n skipping ys
      ≡ elim (take_line ys) [ none ↦ (skipping, []) | some (l, r) ↦ feed n (collecting []) r ]
unfolding feed accept take_line
feed_skipping n [] = refl
feed_skipping n (c ∷ cs) = ground (arith, feed_skipping n cs)
