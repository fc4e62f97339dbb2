-- ===== src/InputBuffer.antt =====
-- src/input_buffer.c and input_buffer.h: the circular buffer in which an input handler collects
-- bytes until a line is complete.
-- A pointer is an address, a number; `mem` is what lies from `start` to `end`. The addresses of a
-- block that malloc returns are larger than its size, so that no subtraction of the source goes
-- below zero. An `int` holds every count, since the size is one. The result -1 of `find` is `none`.
pub mod Search
pub mod Shape
pub mod Fill
pub mod Line
pub mod Purge
pub mod Health
mod Tests
use genbuf.Prelude.{
  ℕ, ◌+◌, ◌-◌, ◌≡◌, Bool, true, false, not, ◌&&◌, ◌||◌, Option, none, some, List, [], ◌∷◌, ◌++◌,
  length, take, drop, ltb, leb, ◌==◌, if◌then◌else◌,
}

pub record InputBuffer : Type 0 where
  pub start : ℕ
  pub current : ℕ
  pub border : ℕ
  pub end : ℕ
  pub available : ℕ
  pub write : ℕ
  pub mem : List ℕ

abbrev pub newline : ℕ
newline = 10

-- `n` bytes from address `p` on, as memcpy and memchr read them
pub bytes : InputBuffer → ℕ → ℕ → List ℕ
bytes b p n = take n (drop (p - b.start) b.mem)

pub index_of : ℕ → List ℕ → Option ℕ
index_of c [] = none
index_of c (x ∷ xs) =
    let rest = index_of c xs in
    if x == c then some 0 else elim rest [ none ↦ none | some k ↦ some (k + 1) ]

-- the pointer that memchr returns
pub memchr : InputBuffer → ℕ → ℕ → ℕ → Option ℕ
memchr b p c n = elim (index_of c (bytes b p n)) [ none ↦ none | some k ↦ some (p + k) ]

-- what the read() of input_tools.c puts at `current`
pub store : InputBuffer → List ℕ → InputBuffer
store b xs = record b { mem = take at b.mem ++ (xs ++ drop (at + length xs) b.mem) }
  where
    at : ℕ
    at = b.current - b.start

-- malloc's address and what it leaves there are arguments
unfoldable pub create : (size address : ℕ) → (garbage : List ℕ) → InputBuffer
create size address garbage = record {
  start = address;
  current = address;
  border = address;
  end = address + size;
  available = size;
  write = size;
  mem = garbage;
}

abbrev pub min_of : ℕ → ℕ → ℕ
min_of a b = if ltb a b then a else b

update_write : InputBuffer → InputBuffer
update_write b =
    if ltb b.current b.border
    then record b { write = b.border - b.current }
    else record b { write = min_of (b.end - b.current) b.available }

wrap_current : InputBuffer → InputBuffer
wrap_current b = if b.current == b.end then record b { current = b.start } else b

pub update : InputBuffer → ℕ → InputBuffer
unfolding update_write wrap_current
update b n =
    update_write (wrap_current (record b { current = b.current + n; available = b.available - n }))

-- the message lies in two parts, from `border` to `end` and from `start` to `current`
find_split : InputBuffer → ℕ → Option ℕ
find_split b c = elim (memchr b b.border c (b.end - b.border)) [
  | some index ↦ some (index - b.border + 1)
  | none ↦ elim (memchr b b.start c (b.current - b.start)) [
    | some index ↦ some ((b.end - b.border) + (index - b.start) + 1)
    | none ↦ none
  ]
]

find_flat : InputBuffer → ℕ → Option ℕ
find_flat b c = elim (memchr b b.border c (b.current - b.border)) [
  | some index ↦ some (index - b.border + 1)
  | none ↦ none
]

pub find : InputBuffer → ℕ → Option ℕ
unfolding find_split find_flat
find b c =
    if leb b.current b.border
    then (if b.available == (b.end - b.start) then none else find_split b c)
    else find_flat b c

-- The test for NULL of the structure itself has no counterpart.
pub validate : InputBuffer → Bool
validate b =
    not (start == 0)
    && not (current == 0)
    && not (border == 0)
    && not (end == 0)
    && ltb current end
    && leb start current
    && leb write available
    && ((ltb current border && write == (border - current) && available == write)
        || (ltb border current
            && write == (end - current)
            && available == ((border - start) + write))
        || (current == border
            && (available == 0 || available == (end - start))
            && (write == 0 || write == (end - current))))
  where
    open b use {start, current, border, end, available, write}

-- the last part of `purgeline` and `getline`
give_back : InputBuffer → ℕ → InputBuffer
give_back b len =
    if ltb b.current b.border
    then record b { write = b.border - b.current; available = b.available + len }
    else record b { write = b.end - b.current; available = b.available + len }

purge_all : InputBuffer → InputBuffer
purge_all b = record b {
  border = b.start;
  current = b.start;
  write = b.end - b.start;
  available = b.end - b.start;
}

purge_border : InputBuffer → ℕ → InputBuffer
purge_border b len =
    if ltb b.end (b.border + len)
    then record b { border = b.start - ((b.border + len) - b.end) }
    else record b { border = b.border + len }

pub purgeline : InputBuffer → Bool × InputBuffer
unfolding give_back purge_all purge_border
purgeline b = elim (find b newline) [
  | none ↦ (false, purge_all b)
  | some len ↦ (true, give_back (purge_border b len) len)
]

-- the line, and the buffer with `border` behind it
getline_border : InputBuffer → ℕ → List ℕ × InputBuffer
getline_border b len =
    if ltb b.end (b.border + len)
    then (
      bytes b b.border tail_len ++ bytes b b.start (len - tail_len),
      record b { border = b.start + (len - tail_len) },
    )
    else (
      bytes b b.border len,
      if (b.border + len) == b.end
          then record b { border = b.start }
          else record b { border = b.border + len },
    )
  where
    tail_len : ℕ
    tail_len = b.end - b.border

pub getline : InputBuffer → Option (List ℕ) × InputBuffer
unfolding give_back getline_border
getline b = elim (find b newline) [
  | none ↦ (none, b)
  | some len ↦ let (line, b') = getline_border b len in (some line, give_back b' len)
]
