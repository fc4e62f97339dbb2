-- ===== src/InputBuffer/Line.antt =====
-- `input_buffer_getline` against a split of the bytes held behind their first newline.
use genbuf.Prelude.{
  ℕ, ◌+◌, ◌-◌, ◌<◌, ◌≡◌, refl, sym, ◌∙◌, ap, List, [], ◌∷◌, ◌++◌, append-nil, append_assoc, arith,
  length, length-append, Option, none, some, append_split, ◌==◌, if◌then◌else◌, inl, inr, ◌⊎◌,
  Bool-cases,
}
use native.Mathlib.Decide.{dec_lt}
use genbuf.InputBuffer.{InputBuffer, newline, index_of, find, getline}
use genbuf.InputBuffer.Shape.{Flat, Wrapped, Holds, flat, wrapped, bytes_at}
use genbuf.InputBuffer.Search.{length_to, find-Holds}

-- the first line, with its newline, and what follows it
unfoldable pub take_line : List ℕ → Option (List ℕ × List ℕ)
take_line [] = none
take_line (x ∷ xs) =
    let rest = take_line xs in
    if x == newline
    then some (x ∷ [], xs)
    else elim rest [ none ↦ none | some (l, r) ↦ some (x ∷ l, r) ]

pub take_line_cases :
    (xs : List ℕ)
    → ((take_line xs ≡ none) × (length_to newline xs ≡ none))
      ⊎ ((l : List ℕ) × (r : List ℕ) × (take_line xs ≡ some (l, r))
          × (xs ≡ l ++ r)
          × (length_to newline xs ≡ some (length l))
          × (0 < length l))
unfolding take_line index_of
take_line_cases [] = inl (refl, refl)
take_line_cases (x ∷ xs) = elim (Bool-cases (x == newline)) [
  | inl hit ↦ inr (x ∷ [], xs, ground arith, refl, ground arith, omega arith)
  | inr miss ↦ elim (take_line_cases xs) [
    | inl (a, b) ↦ inl (ground arith, ground arith)
    | inr (l, r, a, e, b, p) ↦ inr (x ∷ l, r, ground arith, ap (◌∷◌ x) e, ground arith, omega arith)
  ]
]

-- `out` is what `getline` returns on `b`, where the bytes held split as given.
abbrev pub LineOut : InputBuffer → Option (List ℕ × List ℕ) → Option (List ℕ) × InputBuffer → Type 0
LineOut b none out = out ≡ (none, b)
LineOut b (some (l, r)) out =
    (out.0 ≡ some l) × Holds out.1 r × (out.1.start ≡ b.start) × (out.1.end ≡ b.end)

module _ (b : InputBuffer) (l r : List ℕ) (p : 0 < length l)
    (found : find b newline ≡ some (length l)) where
  getline-Flat :
      (pre post : List ℕ) → Flat b (l ++ r) pre post → LineOut b (some (l, r)) (getline b)
  unfolding getline
  getline-Flat pre post f =
      let m = length-append l r in
      let n = length-append pre l in
      let layout = f.layout ∙ ap (◌++◌ pre) (append_assoc l r post) in
      let line = bytes_at b pre l (r ++ post) {p = b.border} layout f.border_at refl in
      (
        ground arith,
        flat (pre ++ l) post (record {
          layout = ground (arith, append_assoc pre l (r ++ post));
          border_at = ground arith;
          current_at = ground arith;
          end_at = ground arith;
          room = f.room;
          free = ground arith;
          writable = ground arith;
        }),
        ground arith,
        ground arith,
      )

  -- the line lies in the tail, and bytes of the tail follow it
  getline_in_tail :
      (head gap rest : List ℕ)
      → 0 < length rest
      → r ≡ rest ++ head
      → Wrapped b head gap (l ++ rest)
      → LineOut b (some (l, r)) (getline b)
  unfolding getline
  getline_in_tail head gap rest q e w =
      let m = length-append l rest in
      let n = length-append gap l in
      let layout : b.mem ≡ (head ++ gap) ++ (l ++ rest) =
        w.layout ∙ sym (append_assoc head gap (l ++ rest)) in
      let line =
        bytes_at b (head ++ gap) l rest {p = b.border} layout
          (omega (arith, w.border_at, length-append head gap)) refl in
      (
        ground arith,
        wrapped head (gap ++ l) rest e (record {
          layout = ground (arith, append_assoc gap l rest);
          current_at = ground arith;
          border_at = ground arith;
          end_at = ground arith;
          used = q;
          free = ground arith;
          writable = ground arith;
        }),
        ground arith,
        ground arith,
      )

  -- the line is the tail
  getline_whole_tail : (gap : List ℕ) → Wrapped b r gap l → LineOut b (some (l, r)) (getline b)
  unfolding getline
  getline_whole_tail gap w =
      let n = length-append gap l in
      let layout : b.mem ≡ (r ++ gap) ++ (l ++ []) =
        rw append-nil (w.layout ∙ sym (append_assoc r gap l)) in
      let line =
        bytes_at b (r ++ gap) l [] {p = b.border} layout
          (omega (arith, w.border_at, length-append r gap)) refl in
      (
        ground arith,
        flat [] (gap ++ l) (record {
          layout = ground arith;
          border_at = ground arith;
          current_at = ground arith;
          end_at = ground arith;
          room = omega arith;
          free = ground arith;
          writable = ground arith;
        }),
        ground arith,
        ground arith,
      )

-- the line ends in the head
getline_in_head :
    (b : InputBuffer) (l r part gap tail : List ℕ)
    → 0 < length part
    → l ≡ tail ++ part
    → find b newline ≡ some (length l)
    → Wrapped b (part ++ r) gap tail
    → LineOut b (some (l, r)) (getline b)
unfolding getline
getline_in_head b l r part gap tail q e found w =
    let n = length-append gap tail in
    let m = length-append part r in
    let k : length l ≡ length tail + length part = rw e (length-append tail part) in
    let high : b.mem ≡ ((part ++ r) ++ gap) ++ (tail ++ []) =
      rw append-nil (w.layout ∙ sym (append_assoc (part ++ r) gap tail)) in
    let low : b.mem ≡ [] ++ (part ++ (r ++ (gap ++ tail))) =
      w.layout ∙ append_assoc part r (gap ++ tail) in
    let first =
      bytes_at b ((part ++ r) ++ gap) tail [] {p = b.border} {n = b.end - b.border} high
        (omega (arith, w.border_at, length-append (part ++ r) gap)) (omega arith) in
    let second =
      bytes_at b [] part (r ++ (gap ++ tail)) {p = b.start} {n = length l - (b.end - b.border)} low
        (omega arith) (omega arith) in
    (
      ground arith,
      flat part (gap ++ tail) (record {
        layout = ground arith;
        border_at = ground arith;
        current_at = ground arith;
        end_at = ground arith;
        room = omega arith;
        free = ground arith;
        writable = ground arith;
      }),
      ground arith,
      ground arith,
    )

getline-Wrapped :
    (b : InputBuffer) (l r head gap tail : List ℕ)
    → 0 < length l
    → find b newline ≡ some (length l)
    → l ++ r ≡ tail ++ head
    → Wrapped b head gap tail
    → LineOut b (some (l, r)) (getline b)
getline-Wrapped b l r head gap tail p found e w = elim (dec_lt (length tail) (length l)) [
  | yes h ↦
      let (part, el, er) = append_split l r tail head e (omega arith) in
      getline_in_head b l r part gap tail (omega (arith, ap length el, length-append tail part)) el
        found (rw er at w)
  | no h ↦ let (rest, et, er) = append_split tail head l r (sym e) (omega arith) in split rest et er
]
  where
    split :
        (rest : List ℕ) → tail ≡ l ++ rest → r ≡ rest ++ head → LineOut b (some (l, r)) (getline b)
    split [] et er = getline_whole_tail b l r p found gap (rw (er, ← append-nil l, ← et) w)
    split (x ∷ rest) et er =
        getline_in_tail b l r p found head gap (x ∷ rest) (omega arith) er (rw et at w)

-- `getline` returns the first line with its newline, and keeps the bytes behind it; where the
-- bytes held have no newline it returns NULL and changes nothing.
pub getline-LineOut :
    {b : InputBuffer} {xs : List ℕ} → Holds b xs → LineOut b (take_line xs) (getline b)
unfolding getline
getline-LineOut {b} {xs} h = elim (take_line_cases xs) [
  | inl (a, n) ↦ rw a (rw (find-Holds newline h ∙ n, getline))
  | inr (l, r, a, e, n, p) ↦ rw a (line h l r e (find-Holds newline h ∙ n) p)
]
  where
    line :
        Holds b xs
        → (l r : List ℕ) → xs ≡ l ++ r
        → find b newline ≡ some (length l)
        → 0 < length l
        → LineOut b (some (l, r)) (getline b)
    line (flat pre post f) l r e n p = getline-Flat b l r p n pre post (rw e at f)
    line (wrapped head gap tail q w) l r e n p =
        getline-Wrapped b l r head gap tail p n (sym e ∙ q) w
