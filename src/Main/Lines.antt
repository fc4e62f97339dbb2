-- ===== src/Main/Lines.antt =====
-- The lines that the sources report are messages that deliver_message takes, and no more than the bytes
-- of the streams.
use genbuf.Prelude.{
  ◌≢◌, ℕ, ◌+◌, ◌≤◌, ◌≡◌, refl, inl, inr, List, [], ◌∷◌, ◌++◌, arith, length, ◌==◌, leb, Bool-cases,
}
use genbuf.InputBuffer.{newline}
use genbuf.InputTools.{max_msg_size}
use genbuf.InputTools.Assembler.{split_lines}
use genbuf.InputTools.Kept.{short}
use genbuf.Output.{ends_line}
use genbuf.Logger.{Msg}
use genbuf.Logger.Order.{AllFit}
use genbuf.Logger.Delivery.{IsLine}
use genbuf.Output.Text.{NoNul}
use genbuf.Reader.Ends.{All}
use genbuf.Reader.{Source}
use genbuf.Reader.Merge.{Merge, finished, skip, pick, load}
use genbuf.Reader.Pipes.{Pipe, short_lines, total_load}

-- no byte of the stream is 0
abbrev pub HasText : Pipe → Type 0
HasText p = NoNul p.stream

IsLine-cons : (x : ℕ) (l : List ℕ) → x ≢ 0 → IsLine l → IsLine (x ∷ l)
unfolding ends_line NoNul
IsLine-cons x [] z (e, nz, _) = absurd (nz refl)
IsLine-cons x (c ∷ cs) z (e, nz, whole) = (e, omega arith, (z, whole))

-- one more byte of the first line
longer_first :
    (x : ℕ) (lines : List (List ℕ)) (rest : List ℕ)
    → x ≢ 0
    → AllFit IsLine lines
    → let r : List (List ℕ) × List ℕ = elim lines [
      | [] ↦ ([], x ∷ rest)
      | l ∷ ls ↦ ((x ∷ l) ∷ ls, rest)
    ] in
      AllFit IsLine r.0
longer_first x [] rest z v = tt
longer_first x (l ∷ ls) rest z (v, vs) = (IsLine-cons x l z v, vs)

split_lines-AllFit : (xs : List ℕ) → NoNul xs → AllFit IsLine (split_lines xs).0
unfolding split_lines ends_line NoNul
split_lines-AllFit [] v = tt
split_lines-AllFit (x ∷ xs) (z, v) = elim (Bool-cases (x == newline)) [
  | inl e ↦ rw e ((e, omega arith, (z, tt)), split_lines-AllFit xs v)
  | inr e ↦ rw e (longer_first x (split_lines xs).0 (split_lines xs).1 z (split_lines-AllFit xs v))
]

short-AllFit :
    (fits : Msg → Type 0) (n : ℕ) (ls : List (List ℕ)) → AllFit fits ls → AllFit fits (short n ls)
unfolding short
short-AllFit fits n [] v = tt
short-AllFit fits n (l ∷ ls) (v, vs) = elim (Bool-cases (leb (length l) n)) [
  | inl e ↦ rw e (v, short-AllFit fits n ls vs)
  | inr e ↦ rw e (short-AllFit fits n ls vs)
]

length-short : (n : ℕ) (ls : List (List ℕ)) → length (short n ls) ≤ length ls
unfolding short
length-short n [] = omega arith
length-short n (l ∷ ls) = ground (arith, length-short n ls)

length-split_lines : (xs : List ℕ) → length (split_lines xs).0 ≤ length xs
unfolding split_lines
length-split_lines [] = omega arith
length-split_lines (x ∷ xs) = ground (arith, length-split_lines xs)

-- all lists are of messages that fit
abbrev AllFits : (Msg → Type 0) → List (List Msg) → Type 0
AllFits fits [] = Unit
AllFits fits (l ∷ ls) = AllFit fits l × AllFits fits ls

AllFits-middle :
    (fits : Msg → Type 0) (ls ls' : List (List Msg)) (l l' : List Msg)
    → AllFits fits (ls ++ l ∷ ls')
    → AllFit fits l × (AllFit fits l' → AllFits fits (ls ++ l' ∷ ls')) × AllFits fits (ls ++ ls')
AllFits-middle fits [] ls' l l' (v, vs) = (v, λ w. (w, vs), vs)
AllFits-middle fits (k ∷ ls) ls' l l' (v, vs) =
    let (a, b, c) = AllFits-middle fits ls ls' l l' vs in (a, λ w. (v, b w), (v, c))

-- A merge has the messages of the lists.
Merge-AllFit :
    (fits : Msg → Type 0) {ls : List (List Msg)} {out : List Msg}
    → Merge ls out
    → AllFits fits ls
    → AllFit fits out
Merge-AllFit fits finished v = tt
Merge-AllFit fits (skip ls ls' out m) v = Merge-AllFit fits m (AllFits-middle fits ls ls' [] [] v).2
Merge-AllFit fits (pick ls ls' x xs out m) v =
    let (a, b, _) = AllFits-middle fits ls ls' (x ∷ xs) xs v in (a.0, Merge-AllFit fits m (b a.1))

abbrev total : List (List Msg) → ℕ
total [] = 0
total (l ∷ ls) = length l + total ls

total-append : (ls ls' : List (List Msg)) → total (ls ++ ls') ≡ total ls + total ls'
total-append [] ls' = omega arith
total-append (l ∷ ls) ls' = omega (arith, total-append ls ls')

length-Merge : {ls : List (List Msg)} {out : List Msg} → Merge ls out → length out ≡ total ls
length-Merge finished = refl
length-Merge (skip ls ls' out m) =
    omega (arith, length-Merge m, total-append ls ls', total-append ls ([] ∷ ls'))
length-Merge (pick ls ls' x xs out m) =
    omega (arith, length-Merge m, total-append ls (xs ∷ ls'), total-append ls ((x ∷ xs) ∷ ls'))

short_lines-AllFits :
    (sources : List (Source Pipe)) → All HasText sources → AllFits IsLine (short_lines sources)
unfolding short_lines All
short_lines-AllFits [] v = tt
short_lines-AllFits (s ∷ rest) (v, vs) = (
  short-AllFit IsLine max_msg_size _ (split_lines-AllFit s.handler.stream v),
  short_lines-AllFits rest vs,
)

total-short_lines :
    (sources : List (Source Pipe)) → total (short_lines sources) ≤ total_load sources
unfolding short_lines load
total-short_lines [] = omega arith
total-short_lines (s ∷ rest) = omega (
  arith,
  length-short max_msg_size (split_lines s.handler.stream).0,
  length-split_lines s.handler.stream,
  total-short_lines rest,
)

-- What the reader queues of its sources are lines, no more of them than there are bytes and sources.
pub Merge-Lines :
    (sources : List (Source Pipe)) (queue : List Msg)
    → All HasText sources
    → Merge (short_lines sources) queue
    → AllFit IsLine queue × (length queue ≤ total_load sources)
Merge-Lines sources queue v m = (
  Merge-AllFit IsLine m (short_lines-AllFits sources v),
  omega (arith, length-Merge m, total-short_lines sources),
)
