-- ===== src/InputBuffer/Search.antt =====
-- `input_buffer_find` against a search of the bytes that the buffer holds.
use genbuf.Prelude.{
  ℕ, ◌+◌, ◌-◌, ◌≡◌, Option, none, some, List, [], ◌∷◌, ◌++◌, append-nil, append_assoc, arith,
  length, length-append,
}
use genbuf.InputBuffer.{InputBuffer, index_of, memchr, find}
use genbuf.InputBuffer.Shape.{Flat, Wrapped, Holds, flat, wrapped, bytes_at}

-- the bytes up to the first `c`, with it
abbrev pub length_to : ℕ → List ℕ → Option ℕ
length_to c xs = elim (index_of c xs) [ none ↦ none | some k ↦ some (k + 1) ]

index_of-append :
    (c : ℕ) (xs ys : List ℕ)
    → index_of c (xs ++ ys) ≡ elim (index_of c xs) [
      | some k ↦ some k
      | none ↦ elim (index_of c ys) [ none ↦ none | some k ↦ some (length xs + k) ]
    ]
unfolding index_of
index_of-append c [] ys = ground arith
index_of-append c (x ∷ xs) ys = ground (arith, index_of-append c xs ys)

memchr_at :
    (b : InputBuffer) (c : ℕ) (pre xs post : List ℕ) {p n : ℕ}
    → b.mem ≡ pre ++ (xs ++ post)
    → p ≡ b.start + length pre
    → n ≡ length xs
    → memchr b p c n ≡ elim (index_of c xs) [ none ↦ none | some k ↦ some (p + k) ]
unfolding memchr
memchr_at b c pre xs post e ep en = rw (bytes_at b pre xs post e ep en, memchr)

find-Flat :
    (b : InputBuffer) (c : ℕ) (xs pre post : List ℕ)
    → Flat b xs pre post
    → find b c ≡ length_to c xs
unfolding find index_of
find-Flat b c [] pre post f = ground arith
find-Flat b c (x ∷ xs) pre post f = ground (
  arith,
  memchr_at b c pre (x ∷ xs) post {p = b.border} {n = b.current - b.border} f.layout f.border_at
      (omega arith),
)

memchr_tail :
    (b : InputBuffer) (c : ℕ) (head gap tail : List ℕ)
    → Wrapped b head gap tail
    → memchr b b.border c (b.end - b.border)
      ≡ elim (index_of c tail) [ none ↦ none | some k ↦ some (b.border + k) ]
memchr_tail b c head gap tail w =
    memchr_at b c (head ++ gap) tail [] (rw (append-nil, append_assoc) w.layout)
      (omega (arith, length-append head gap)) (omega arith)

find-Wrapped :
    (b : InputBuffer) (c : ℕ) (head gap tail : List ℕ)
    → Wrapped b head gap tail
    → find b c ≡ length_to c (tail ++ head)
unfolding find
find-Wrapped b c head gap tail w = ground (
  arith,
  index_of-append c tail head,
  memchr_tail b c head gap tail w,
  memchr_at b c [] head (gap ++ tail) {p = b.start} {n = b.current - b.start} w.layout (omega arith)
      (omega arith),
)

-- The search of the one or two parts is a search of the bytes held.
pub find-Holds : {b : InputBuffer} {xs : List ℕ} (c : ℕ) → Holds b xs → find b c ≡ length_to c xs
find-Holds {b} {xs} c (flat pre post f) = find-Flat b c xs pre post f
find-Holds {b} {xs} c (wrapped head gap tail e w) = rw e (find-Wrapped b c head gap tail w)
