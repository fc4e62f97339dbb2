-- ===== src/InputBuffer/Shape.antt =====
-- What a buffer of input_buffer.c holds: the bytes that are not yet read, oldest first, in one
-- part or round the end of the memory.
use genbuf.Prelude.{
  ℕ, ◌+◌, ◌-◌, ◌<◌, ◌≤◌, ◌≡◌, ap, List, ◌++◌, arith, length, length-append, take, drop,
  take-append_left, drop-append_left,
}
use genbuf.InputBuffer.{InputBuffer, bytes}

-- `pre` and `post` are free, around the bytes.
pub record Flat (b : InputBuffer) (xs pre post : List ℕ) : Type 0 where
  pub layout : b.mem ≡ pre ++ (xs ++ post)
  pub border_at : b.border ≡ b.start + length pre
  pub current_at : b.current ≡ b.start + length pre + length xs
  pub end_at : b.end ≡ b.start + length pre + length xs + length post
  pub room : 0 < length post
  pub free : b.available ≡ length pre + length post
  pub writable : b.write ≡ length post

-- `gap` is free; the bytes are `tail`, then `head`.
pub record Wrapped (b : InputBuffer) (head gap tail : List ℕ) : Type 0 where
  pub layout : b.mem ≡ head ++ (gap ++ tail)
  pub current_at : b.current ≡ b.start + length head
  pub border_at : b.border ≡ b.start + length head + length gap
  pub end_at : b.end ≡ b.start + length head + length gap + length tail
  pub used : 0 < length tail
  pub free : b.available ≡ length gap
  pub writable : b.write ≡ length gap

pub data Holds (b : InputBuffer) (xs : List ℕ) : Type 0 where
  flat : (pre post : List ℕ) → Flat b xs pre post → Holds b xs
  wrapped : (head gap tail : List ℕ) → xs ≡ tail ++ head → Wrapped b head gap tail → Holds b xs

abbrev pub size : InputBuffer → ℕ
size b = b.end - b.start

-- `b'` lies in the memory of `b`.
pub record SameBlock (b b' : InputBuffer) : Type 0 where
  pub start_same : b'.start ≡ b.start
  pub end_same : b'.end ≡ b.end

slice-append :
    (pre xs post : List ℕ) → take (length xs) (drop (length pre) (pre ++ (xs ++ post))) ≡ xs
slice-append pre xs post = rw (drop-append_left pre (xs ++ post)) (take-append_left xs post)

-- A read of the memory where its layout is known.
pub bytes_at :
    (b : InputBuffer) (pre xs post : List ℕ) {p n : ℕ}
    → b.mem ≡ pre ++ (xs ++ post)
    → p ≡ b.start + length pre
    → n ≡ length xs
    → bytes b p n ≡ xs
unfolding bytes
bytes_at b pre xs post {p} {n} e ep en =
    let at : p - b.start ≡ length pre = omega arith in rw (e, at, en) (slice-append pre xs post)

-- Used and free bytes make up the size.
pub Holds-size : {b : InputBuffer} {xs : List ℕ} → Holds b xs → length xs + b.available ≡ size b
Holds-size (flat pre post f) = omega arith
Holds-size (wrapped head gap tail e w) = omega (arith, ap length e, length-append tail head)

-- Where a byte is free a byte may be written, and never more than are free.
pub Holds-write :
    {b : InputBuffer} {xs : List ℕ}
    → Holds b xs
    → 0 < b.available
    → (0 < b.write) × (b.write ≤ b.available)
Holds-write (flat pre post f) h = omega arith
Holds-write (wrapped head gap tail e w) h = omega arith
