-- ===== src/InputBuffer/Purge.antt =====
-- `input_buffer_purgeline`: what it drops, and what it leaves.
pub mod Lost
use genbuf.Prelude.{
  ℕ, ◌+◌, ◌-◌, ◌<◌, ◌≤◌, ◌≡◌, sym, ◌∙◌, ap, true, false, List, [], ◌∷◌, ◌++◌, append_assoc, arith,
  length, length-append, none, some, append_split, inl, inr,
}
use genbuf.InputBuffer.{
  InputBuffer, newline, memchr, bytes, index_of, find, store, update, getline, purgeline,
}
use genbuf.InputBuffer.Shape.{Flat, Wrapped, Holds, flat, wrapped, size, SameBlock}
use genbuf.InputBuffer.Fill.{update-Holds, update_frame}
use genbuf.InputBuffer.Search.{find-Holds}
use genbuf.InputBuffer.Line.{take_line, take_line_cases}

room : {b : InputBuffer} {xs : List ℕ} → Holds b xs → b.end ≡ b.start + length b.mem
room {b} {xs} (flat pre post f) =
    omega (arith, ap length f.layout, length-append pre (xs ++ post), length-append xs post)
room {b} (wrapped head gap tail e w) =
    omega (arith, ap length w.layout, length-append head (gap ++ tail), length-append gap tail)

positive : {b : InputBuffer} {xs : List ℕ} → Holds b xs → 0 < length b.mem
positive {b} {xs} (flat pre post f) =
    omega (arith, ap length f.layout, length-append pre (xs ++ post), length-append xs post)
positive {b} (wrapped head gap tail e w) =
    omega (arith, ap length w.layout, length-append head (gap ++ tail), length-append gap tail)

-- Where the bytes held have no newline, `purgeline` reports failure and empties the buffer.
pub purgeline-none :
    {b : InputBuffer} {xs : List ℕ}
    → Holds b xs
    → take_line xs ≡ none
    → ((purgeline b).0 ≡ false)
      × Holds (purgeline b).1 []
      × ((purgeline b).1.border ≡ b.start)
      × SameBlock b (purgeline b).1
unfolding purgeline
purgeline-none {b} {xs} h e = elim (take_line_cases xs) [
  | inl (a, n) ↦
      let missing = find-Holds newline h ∙ n in
      (
        ground arith,
        flat [] b.mem (record {
          layout = ground arith;
          border_at = ground arith;
          current_at = ground arith;
          end_at = ground (arith, room h);
          room = positive h;
          free = ground (arith, room h);
          writable = ground (arith, room h);
        }),
        ground arith,
        ground arith,
      )
  | inr (l, r, a, q, n, p) ↦ absurd (cc)
]

module _ (b : InputBuffer) (l r : List ℕ) (p : 0 < length l)
    (found : find b newline ≡ some (length l)) where
  abbrev Dropped : Type 0
  Dropped = ((purgeline b).0 ≡ true) × Holds (purgeline b).1 r × SameBlock b (purgeline b).1

  purgeline-Flat : (pre post : List ℕ) → Flat b (l ++ r) pre post → Dropped
  unfolding purgeline
  purgeline-Flat pre post f =
      let m = length-append l r in
      let n = length-append pre l in
      (
        ground arith,
        flat (pre ++ l) post (record {
          layout = ground (arith, append_assoc pre l (r ++ post), append_assoc l r post);
          border_at = ground arith;
          current_at = ground arith;
          end_at = ground arith;
          room = f.room;
          free = ground arith;
          writable = ground arith;
        }),
        ground arith,
      )

  purgeline-Wrapped :
      (head gap rest : List ℕ)
      → 0 < length rest
      → r ≡ rest ++ head
      → Wrapped b head gap (l ++ rest)
      → Dropped
  unfolding purgeline
  purgeline-Wrapped head gap rest q e w =
      let m = length-append l rest in
      let n = length-append gap l in
      (
        ground arith,
        wrapped head (gap ++ l) rest e (record {
          layout = ground (arith, append_assoc gap l rest);
          current_at = ground arith;
          border_at = ground arith;
          end_at = ground arith;
          used = q;
          free = ground arith;
          writable = ground arith;
        }),
        ground arith,
      )

-- Where the first line held ends before the end of the memory, `purgeline` reports success and
-- drops that line alone.
pub purgeline-some :
    {b : InputBuffer} {xs : List ℕ} (l r : List ℕ)
    → Holds b xs
    → take_line xs ≡ some (l, r)
    → b.border + length l < b.end
    → ((purgeline b).0 ≡ true) × Holds (purgeline b).1 r × SameBlock b (purgeline b).1
purgeline-some {b} {xs} l r h e below = elim (take_line_cases xs) [
  | inl (a, n) ↦ absurd (cc)
  | inr (l', r', a, q, n, p) ↦
      let el : l ≡ l' = ground arith in
      let er : r ≡ r' = ground arith in
      drop h (rw (el, er) q) (rw el p) (rw el (find-Holds newline h ∙ n))
]
  where
    drop :
        Holds b xs
        → xs ≡ l ++ r
        → 0 < length l
        → find b newline ≡ some (length l)
        → ((purgeline b).0 ≡ true) × Holds (purgeline b).1 r × SameBlock b (purgeline b).1
    drop (flat pre post f) q p n = purgeline-Flat b l r p n pre post (rw q at f)
    drop (wrapped head gap tail w v) q p n =
        let (rest, et, er) = append_split tail head l r (sym w ∙ q) (omega arith) in
        purgeline-Wrapped b l r p n head gap rest
          (omega (arith, v.end_at, v.border_at, ap length et, length-append l rest)) er (rw et at v)
