-- ===== src/InputBuffer/Fill.antt =====
-- `input_buffer_update` after read() has put bytes at `current`: they are appended.
use genbuf.Prelude.{
  ℕ, ◌+◌, ◌-◌, ◌<◌, ◌≤◌, ◌≡◌, sym, ◌∙◌, ap, List, [], ◌∷◌, ◌++◌, append-nil, append_assoc, arith,
  length, length-append, take-append_left, drop-append_left, cut,
}
use genbuf.InputBuffer.{InputBuffer, store, update}
use genbuf.InputBuffer.Shape.{Flat, Wrapped, Holds, flat, wrapped}

store_at :
    (b : InputBuffer) (pre old post ys : List ℕ)
    → b.mem ≡ pre ++ (old ++ post)
    → b.current ≡ b.start + length pre
    → length ys ≡ length old
    → (store b ys).mem ≡ pre ++ (ys ++ post)
unfolding store
store_at b pre old post ys e ec el =
    let at : b.current - b.start ≡ length pre = omega arith in
    rw
      (
        e,
        at,
        take-append_left pre (old ++ post),
        el,
        ← length-append pre old,
        ← append_assoc pre old post,
      )
      (rw (drop-append_left (pre ++ old) post))

mem-update : (b : InputBuffer) (n : ℕ) → (update b n).mem ≡ b.mem
unfolding update
mem-update b n = ground arith

-- The memory after read() and `update`: `ys` stands in place of as many old bytes.
filled :
    (b : InputBuffer) (pre old post ys : List ℕ)
    → b.mem ≡ pre ++ (old ++ post)
    → b.current ≡ b.start + length pre
    → length ys ≡ length old
    → (update (store b ys) (length ys)).mem ≡ pre ++ (ys ++ post)
filled b pre old post ys e ec el =
    mem-update (store b ys) (length ys) ∙ store_at b pre old post ys e ec el

module _ (b : InputBuffer) (xs pre old ys : List ℕ) (e : length ys ≡ length old) where
  Flat-filled :
      (post : List ℕ)
      → Flat b xs pre (old ++ post)
      → (update (store b ys) (length ys)).mem ≡ pre ++ ((xs ++ ys) ++ post)
  Flat-filled post f =
      filled b (pre ++ xs) old post ys (f.layout ∙ sym (append_assoc pre xs (old ++ post)))
        (omega (arith, f.current_at, length-append pre xs)) e
      ∙ append_assoc pre xs (ys ++ post)
      ∙ ap (◌++◌ pre) (sym (append_assoc xs ys post))

  -- the last byte of the memory is not reached
  update-Flat :
      (post : List ℕ)
      → 0 < length post
      → Flat b xs pre (old ++ post)
      → Flat (update (store b ys) (length ys)) (xs ++ ys) pre post
  unfolding update store
  update-Flat post h f =
      let n = length-append old post in
      let m = length-append xs ys in
      record {
        layout = Flat-filled post f;
        border_at = ground arith;
        current_at = ground arith;
        end_at = ground arith;
        room = h;
        free = ground arith;
        writable = ground arith;
      }

  -- `current` goes back to the start
  update_wraps :
      0 < length old
      → Flat b xs pre old
      → Wrapped (update (store b ys) (length ys)) [] pre (xs ++ ys)
  unfolding update store
  update_wraps h f =
      let m = length-append xs ys in
      record {
        layout = Flat-filled [] (rw (append-nil old) f) ∙ ap (◌++◌ pre) (append-nil (xs ++ ys));
        current_at = ground arith;
        border_at = ground arith;
        end_at = ground arith;
        used = omega arith;
        free = ground arith;
        writable = ground arith;
      }

update-Wrapped :
    (b : InputBuffer) (head old gap tail ys : List ℕ)
    → length ys ≡ length old
    → Wrapped b head (old ++ gap) tail
    → Wrapped (update (store b ys) (length ys)) (head ++ ys) gap tail
unfolding update store
update-Wrapped b head old gap tail ys e w =
    let n = length-append old gap in
    let m = length-append head ys in
    record {
      layout =
          filled b head old (gap ++ tail) ys (w.layout ∙ ap (◌++◌ head) (append_assoc old gap tail))
            w.current_at e
          ∙ sym (append_assoc head ys (gap ++ tail));
      current_at = ground arith;
      border_at = ground arith;
      end_at = ground arith;
      used = w.used;
      free = ground arith;
      writable = ground arith;
    }

Flat-Holds :
    (b : InputBuffer) (xs pre old post ys : List ℕ)
    → length ys ≡ length old
    → Flat b xs pre (old ++ post)
    → Holds (update (store b ys) (length ys)) (xs ++ ys)
Flat-Holds b xs pre old (x ∷ post) ys e f =
    flat pre (x ∷ post) (update-Flat b xs pre old ys e (x ∷ post) (omega arith) f)
Flat-Holds b xs pre old [] ys e f =
    let f' = rw append-nil at f in
    wrapped [] pre (xs ++ ys) (sym (append-nil (xs ++ ys)))
      (update_wraps b xs pre old ys e f'.room f')

-- Bytes that read() puts at `current`, no more than `write` says, are appended to what the buffer
-- holds.
pub update-Holds :
    {b : InputBuffer} {xs : List ℕ} (ys : List ℕ)
    → Holds b xs
    → length ys ≤ b.write
    → Holds (update (store b ys) (length ys)) (xs ++ ys)
update-Holds {b} {xs} ys (flat pre post f) h =
    let (old, rest, e, k) = cut (length ys) post (omega arith) in
    Flat-Holds b xs pre old rest ys k (rw e at f)
update-Holds {b} {xs} ys (wrapped head gap tail e w) h =
    let (old, rest, p, k) = cut (length ys) gap (omega arith) in
    wrapped (head ++ ys) rest tail (ap (λ t. t ++ ys) e ∙ append_assoc tail head ys)
      (update-Wrapped b head old rest tail ys k (rw p at w))

-- Nothing else of the buffer changes but the counts.
pub update_frame :
    (b : InputBuffer) (ys : List ℕ) (n : ℕ)
    → let b' = update (store b ys) n in
      (b'.start ≡ b.start)
      × (b'.end ≡ b.end)
      × (b'.border ≡ b.border)
      × (b'.available ≡ b.available - n)
unfolding update store
update_frame b ys n = ground arith
