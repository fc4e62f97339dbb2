-- ===== src/Main/Shutdown/Safety.antt =====
-- What the steps of the program keep: the lines that got into the buffer, with and without a signal.
use genbuf.Prelude.{
  Bool, ℕ, ◌≡◌, ◌≢◌, refl, sym, ap, ◌∙◌, inl, inr, ◌⊎◌, true, false, none, some, List, [], ◌∷◌,
  ◌++◌, append_assoc, arith,
}
use genbuf.Buffer.{Ptr}
use genbuf.Buffer.Interleave.{System, Step, stores, posts, waits, loads, restores, reposts}
use genbuf.Buffer.Interleave.Safety.{Step-Shared, begin-Shared}
use genbuf.Buffer.Interleave.Counted.{Shared}
use genbuf.Reader.{cleanup}
use genbuf.Main.Shutdown.{
  reading, cleaning, finished, Message, Threads, reported, has_mark, by_logger, Move, pushes, logs,
  signals, cancels, returns, cleaned, joins, begin, Moves, here, next,
}

reported-split :
    (xs ys : List Message) (lines : List (List ℕ))
    → xs ++ ys ≡ reported lines
    → (pre : List (List ℕ)) × (rest : List (List ℕ)) × (lines ≡ pre ++ rest)
      × (xs ≡ reported pre)
      × (ys ≡ reported rest)
unfolding reported
reported-split [] ys lines e = ([], lines, refl, refl, e)
reported-split (x ∷ xs) ys [] e = absurd (ground arith)
reported-split (x ∷ xs) ys (line ∷ lines) e =
    let (pre, rest, l, p, q) = reported-split xs ys lines (ground arith) in
    (line ∷ pre, rest, ap (λ ls. line ∷ ls) l, ground arith, q)

reported-none : (rest : List (List ℕ)) → reported rest ≡ [] → rest ≡ []
unfolding reported
reported-none [] e = refl
reported-none (line ∷ rest) e = absurd (ground arith)

reported-mark : (pre : List (List ℕ)) → reported pre ++ none ∷ [] ≡ cleanup pre
unfolding reported cleanup
reported-mark [] = refl
reported-mark (line ∷ pre) = ap (λ ms. some line ∷ ms) (reported-mark pre)

-- What begins with the mark in it is all.
pub mark-last :
    (xs ys : List Message) (pre : List (List ℕ))
    → xs ++ ys ≡ cleanup pre
    → has_mark xs ≡ true
    → xs ≡ cleanup pre
unfolding cleanup has_mark
mark-last [] ys pre e h = absurd (ground arith)
mark-last (none ∷ xs) ys (line ∷ pre) e h = absurd (ground arith)
mark-last (none ∷ []) ys [] e h = refl
mark-last (none ∷ x ∷ xs) ys [] e h = absurd (ground arith)
mark-last (some x ∷ xs) ys [] e h = absurd (ground arith)
mark-last (some x ∷ xs) ys (line ∷ pre) e h =
    let same = mark-last xs ys pre (ground arith) h in ground arith

-- The reader's thread has ended: the lines that got into the buffer, and those that it left.
pub record After (lines : List (List ℕ)) (p : Threads) : Type 0 where
  pub pre : List (List ℕ)
  pub rest : List (List ℕ)
  pub cut : lines ≡ pre ++ rest
  pub shared : Shared (cleanup pre) p.system
  pub whole : (p.cancelled ≡ true) ⊎ (rest ≡ [])
  pub pushed : (p.phase ≡ cleaning) ⊎ ((p.system.posting ≡ false) × (p.system.unpushed ≡ []))
  pub marked : (p.phase ≢ finished) ⊎ ((p.dest ≡ false) ⊎ (has_mark p.system.popped ≡ true))

abbrev pub During : List (List ℕ) → Threads → Type 0
During lines p = (p.phase ≡ reading) × Shared (reported lines) p.system

abbrev pub Kept : List (List ℕ) → Threads → Type 0
Kept lines p = During lines p ⊎ ((p.phase ≢ reading) × After lines p)

-- The logger's steps leave alone what the other thread has to push.
pub logger-unpushed :
    {s t : System Message} (step : Step s t)
    → by_logger step ≡ true
    → (t.posting ≡ s.posting) × (t.unpushed ≡ s.unpushed)
unfolding by_logger
logger-unpushed (stores s fresh m ms b p q u e) h = absurd (ground arith)
logger-unpushed (posts s p) h = absurd (ground arith)
logger-unpushed (waits s n p e) h = (refl, refl)
logger-unpushed (loads s m b p e) h = (refl, refl)
logger-unpushed (restores s fresh m ms b p q u e) h = (refl, refl)
logger-unpushed (reposts s p) h = (refl, refl)

-- the end of the reader's thread, with what it did not push
leave :
    (lines : List (List ℕ)) (p : Threads)
    → Shared (reported lines) p.system
    → p.system.posting ≡ false
    → (p.cancelled ≡ true) ⊎ (p.system.unpushed ≡ [])
    → After lines (record p { system = record p.system { unpushed = none ∷ [] }; phase = cleaning })
leave lines p v q w =
    let (pre, rest, l, a, b) =
      reported-split (p.system.popped ++ v.held) p.system.unpushed lines
        (append_assoc p.system.popped v.held p.system.unpushed ∙ v.kept) in
    record {
      pre = pre;
      rest = rest;
      cut = l;
      shared = record {
        held = v.held;
        holds = v.holds;
        counts = v.counts;
        kept =
            sym (append_assoc p.system.popped v.held (none ∷ []))
            ∙ (ap (λ xs. xs ++ none ∷ []) a ∙ reported-mark pre);
      };
      whole = elim w [ inl c ↦ inl c | inr u ↦ inr (reported-none rest (sym b ∙ u)) ];
      pushed = inl refl;
      marked = inl (ground arith);
    }

-- the main thread pushes the mark of the end
After-pushes :
    (lines : List (List ℕ)) (p : Threads) (s : System Message)
    → Step p.system s
    → p.phase ≡ cleaning
    → After lines p
    → After lines (record p { system = s })
After-pushes lines p s step c a = record {
  pre = a.pre;
  rest = a.rest;
  cut = a.cut;
  shared = Step-Shared (cleanup a.pre) step a.shared;
  whole = a.whole;
  pushed = inl c;
  marked = inl (ground arith);
}

pub After-logs :
    (lines : List (List ℕ)) (p : Threads) (s : System Message) (step : Step p.system s)
    → by_logger step ≡ true
    → p.dest ≡ true
    → has_mark p.system.popped ≡ false
    → After lines p
    → After lines (record p { system = s })
After-logs lines p s step l d h a =
    let (same, left) = logger-unpushed step l in
    record {
      pre = a.pre;
      rest = a.rest;
      cut = a.cut;
      shared = Step-Shared (cleanup a.pre) step a.shared;
      whole = a.whole;
      pushed = elim a.pushed [ inl c ↦ inl c | inr (q, u) ↦ inr (same ∙ q, left ∙ u) ];
      marked = elim a.marked [
        | inl k ↦ inl k
        | inr (inl u) ↦ absurd (ground arith)
        | inr (inr k) ↦ absurd (ground arith)
      ];
    }

Move-Kept :
    {comes_back : List Message → Bool} {p q : Threads} (lines : List (List ℕ))
    → Move comes_back p q
    → Kept lines p
    → Kept lines q
Move-Kept lines (pushes p s step l _) (inl (r, v)) = inl (r, Step-Shared (reported lines) step v)
Move-Kept lines (pushes p s step l (inl r)) (inr (k, a)) = absurd (k r)
Move-Kept lines (pushes p s step l (inr c)) (inr (k, a)) = inr (k, After-pushes lines p s step c a)
Move-Kept lines (logs p s step l _ h _) (inl (r, v)) = inl (r, Step-Shared (reported lines) step v)
Move-Kept lines (logs p s step l d h _) (inr (k, a)) = inr (k, After-logs lines p s step l d h a)
Move-Kept lines (signals p sig r) (inl (_, v)) = inl (r, v)
Move-Kept lines (signals p sig r) (inr (k, a)) = absurd (k r)
Move-Kept lines (cancels p r c q) (inl (_, v)) = inr (ground arith, leave lines p v q (inl c))
Move-Kept lines (cancels p r c q) (inr (k, a)) = absurd (k r)
Move-Kept lines (returns p r q u) (inl (_, v)) = inr (ground arith, leave lines p v q (inr u))
Move-Kept lines (returns p r q u) (inr (k, a)) = absurd (k r)
Move-Kept lines (cleaned p c q u) (inl (r, v)) = absurd (ground arith)
Move-Kept lines (cleaned p c q u) (inr (k, a)) = inr (
  ground arith,
  record {
    pre = a.pre;
    rest = a.rest;
    cut = a.cut;
    shared = a.shared;
    whole = a.whole;
    pushed = inr (q, u);
    marked = inl (ground arith);
  },
)
Move-Kept lines (joins p j h) (inl (r, v)) = absurd (ground arith)
Move-Kept lines (joins p j h) (inr (k, a)) = inr (
  ground arith,
  record {
    pre = a.pre;
    rest = a.rest;
    cut = a.cut;
    shared = a.shared;
    whole = a.whole;
    pushed = elim a.pushed [ inl c ↦ absurd (ground arith) | inr u ↦ inr u ];
    marked = inr h;
  },
)

pub Moves-Kept :
    {comes_back : List Message → Bool} (fresh : Ptr) (lines : List (List ℕ)) (dest : Bool)
    {p : Threads}
    → fresh ≢ 0
    → Moves comes_back (begin fresh lines dest) p
    → Kept lines p
Moves-Kept fresh lines dest n here = inl (refl, begin-Shared fresh (reported lines) n)
Moves-Kept fresh lines dest n (next path move) =
    Move-Kept lines move (Moves-Kept fresh lines dest n path)
