-- ===== src/InputTools/Assembler.antt =====
-- What `input_handler_common_read` promises of a stream, byte by byte: a line is collected until its
-- newline, and one that fills the buffer without a newline is skipped up to its newline.
use genbuf.Prelude.{
  ℕ, ◌+◌, ◌≡◌, refl, List, [], ◌∷◌, ◌++◌, append_assoc, arith, length, none, some, ◌==◌,
  if◌then◌else◌, inl, inr, ◌⊎◌,
}
use genbuf.InputBuffer.{newline}
use genbuf.InputBuffer.Line.{take_line, take_line_cases}

pub data Mode : Type 0 where
  collecting : List ℕ → Mode
  skipping : Mode

-- `n` is the size of the buffer
unfoldable pub accept : ℕ → Mode → ℕ → Mode × List (List ℕ)
accept n (collecting xs) c =
    if c == newline
    then (collecting [], (xs ++ c ∷ []) ∷ [])
    else if (length xs + 1) == n
    then (skipping, [])
    else (collecting (xs ++ c ∷ []), [])
accept n skipping c = if c == newline then (collecting [], []) else (skipping, [])

unfoldable pub feed : ℕ → Mode → List ℕ → Mode × List (List ℕ)
feed n m [] = (m, [])
feed n m (c ∷ cs) =
    let (m', lines) = accept n m c in let (m'', more) = feed n m' cs in (m'', lines ++ more)

-- every line of a text with its newline, and what follows the last newline
unfoldable pub split_lines : List ℕ → List (List ℕ) × List ℕ
split_lines [] = ([], [])
split_lines (x ∷ xs) =
    let (lines, rest) = split_lines xs in
    if x == newline
    then ((x ∷ []) ∷ lines, rest)
    else elim lines [ [] ↦ ([], x ∷ rest) | l ∷ ls ↦ ((x ∷ l) ∷ ls, rest) ]

pub feed-append :
    (n : ℕ) (m : Mode) (xs ys : List ℕ)
    → feed n m (xs ++ ys)
      ≡ ((feed n (feed n m xs).0 ys).0, (feed n m xs).1 ++ (feed n (feed n m xs).0 ys).1)
unfolding feed
feed-append n m [] ys = refl
feed-append n m (c ∷ cs) ys = simp (feed-append n (accept n m c).0 cs ys, append_assoc)

pub take_line-append :
    (xs ys : List ℕ)
    → take_line xs ≡ none
    → take_line (xs ++ ys) ≡ elim (take_line ys) [ none ↦ none | some (l, r) ↦ some (xs ++ l, r) ]
unfolding take_line
take_line-append [] ys h = ground arith
take_line-append (x ∷ xs) ys h = ground (arith, take_line-append xs ys)

pub split_lines-none : (xs : List ℕ) → take_line xs ≡ none → split_lines xs ≡ ([], xs)
unfolding split_lines take_line
split_lines-none [] h = refl
split_lines-none (x ∷ xs) h = ground (arith, split_lines-none xs)

pub take_line_pair :
    (xs : List ℕ)
    → (take_line xs ≡ none) ⊎ ((l : List ℕ) × (r : List ℕ) × (take_line xs ≡ some (l, r)))
take_line_pair xs = elim (take_line_cases xs) [
  | inl (a, n) ↦ inl a
  | inr (l, r, a, e, n, p) ↦ inr (l, r, a)
]

pub split_lines-some :
    (xs l r : List ℕ)
    → take_line xs ≡ some (l, r)
    → split_lines xs ≡ (l ∷ (split_lines r).0, (split_lines r).1)
unfolding split_lines take_line
split_lines-some [] l r h = cc
split_lines-some (x ∷ xs) l r h = elim (take_line_pair xs) [
  | inl e ↦ ground (arith, split_lines-none xs e)
  | inr (l', r', e) ↦ ground (arith, split_lines-some xs l' r' e)
]
