-- ===== src/Main/Shutdown/Ended.antt =====
-- The end of the program: what the logger has got, and what main()'s buffer_cleanup finds.
use genbuf.Prelude.{
  ◌≡◌, ◌≢◌, ◌⊎◌, refl, sym, ◌∙◌, inl, inr, subst, Bool, true, false, Bool-cases, append-nil, none,
  some, List, [], ◌∷◌, ◌++◌, ℕ, arith, length,
}
use genbuf.Buffer
use genbuf.Buffer.{Ptr, assign}
use genbuf.Buffer.Chain.{IsQueue}
use genbuf.Buffer.Cleanup.{cleanup-empty}
use genbuf.Buffer.Interleave.{counted}
use genbuf.Reader.{cleanup}
use genbuf.Buffer.Interleave.{System, Step, stores, posts, waits, loads, restores, reposts}
use genbuf.Main.Shutdown.{
  Message, Threads, Moves, here, next, begin, finished, has_mark, by_logger, pushes, logs, signals,
  cancels, returns, cleaned, joins,
}
use genbuf.Main.Shutdown.Safety.{After, Moves-Kept, mark-last}

none_behind : (xs ys : List Message) → xs ++ ys ≡ xs → ys ≡ []
none_behind [] ys e = e
none_behind (x ∷ xs) ys e = none_behind xs ys (ground arith)

front_empty : (xs ys : List Message) → xs ++ ys ≡ [] → xs ≡ []
front_empty [] ys e = refl
front_empty (x ∷ xs) ys e = absurd (ground arith)

-- The logger has popped the mark, which is the last message.
popped_all :
    (lines : List (List ℕ)) (p : Threads) (a : After lines p)
    → has_mark p.system.popped ≡ true
    → (p.system.popped ≡ cleanup a.pre) × IsQueue (counted p.system.buffer 0) []
popped_all lines p a h =
    let v = a.shared in
    let same = mark-last p.system.popped (v.held ++ p.system.unpushed) a.pre v.kept h in
    let left = none_behind p.system.popped (v.held ++ p.system.unpushed) (v.kept ∙ sym same) in
    (
      same,
      subst (λ xs. IsQueue (counted p.system.buffer (length xs)) xs)
          (front_empty v.held p.system.unpushed left) v.holds,
    )

-- The thread that pushes pops nothing.
pushing-popped :
    {s t : System Message} (step : Step s t) → by_logger step ≡ false → t.popped ≡ s.popped
unfolding by_logger
pushing-popped (stores s fresh m ms b p q u e) h = refl
pushing-popped (posts s p) h = refl
pushing-popped (waits s n p e) h = absurd (ground arith)
pushing-popped (loads s m b p e) h = absurd (ground arith)
pushing-popped (restores s fresh m ms b p q u e) h = absurd (ground arith)
pushing-popped (reposts s p) h = absurd (ground arith)

-- The destination stays, and without one nothing is popped.
abbrev Delivers : Bool → Threads → Type 0
Delivers dest p = (p.dest ≡ dest) × (p.dest ≡ false → p.system.popped ≡ [])

Moves-Delivers :
    {comes_back : List Message → Bool} (fresh : Ptr) (lines : List (List ℕ)) (dest : Bool)
    {p : Threads}
    → Moves comes_back (begin fresh lines dest) p
    → Delivers dest p
Moves-Delivers fresh lines dest here = (refl, λ e. refl)
Moves-Delivers fresh lines dest (next path (pushes p s step l _)) =
    let (d, v) = Moves-Delivers fresh lines dest path in (d, λ e. pushing-popped step l ∙ v e)
Moves-Delivers fresh lines dest (next path (logs p s step l set _ _)) =
    let (d, v) = Moves-Delivers fresh lines dest path in (d, λ e. absurd (ground arith))
Moves-Delivers fresh lines dest (next path (signals p sig r)) = Moves-Delivers fresh lines dest path
Moves-Delivers fresh lines dest (next path (cancels p r c q)) = Moves-Delivers fresh lines dest path
Moves-Delivers fresh lines dest (next path (returns p r q u)) = Moves-Delivers fresh lines dest path
Moves-Delivers fresh lines dest (next path (cleaned p c q u)) = Moves-Delivers fresh lines dest path
Moves-Delivers fresh lines dest (next path (joins p j h)) = Moves-Delivers fresh lines dest path

-- what the logger has got of the lines pushed, and what is left in the buffer
abbrev pub Got : Bool → List (List ℕ) → System Message → Type 0
Got dest pre s =
    ((dest ≡ true)
      × (s.popped ≡ cleanup pre)
      × (Buffer.cleanup 2 s.buffer ≡ some ([], assign s.buffer.heap s.buffer.head none)))
    ⊎ ((dest ≡ false)
        × (s.popped ≡ [])
        × IsQueue (counted s.buffer (length (cleanup pre))) (cleanup pre))

-- The logger has got nothing, and all is left in the buffer.
all_held :
    (lines : List (List ℕ)) (p : Threads) (a : After lines p)
    → p.system.popped ≡ []
    → p.system.unpushed ≡ []
    → IsQueue (counted p.system.buffer (length (cleanup a.pre))) (cleanup a.pre)
all_held lines p a e u =
    let v = a.shared in
    let all : v.held ≡ cleanup a.pre = sym (append-nil v.held) ∙ rw (e, u) at v.kept in
    subst (λ xs. IsQueue (counted p.system.buffer (length xs)) xs) all v.holds

got :
    (lines : List (List ℕ)) (dest : Bool) (p : Threads) (a : After lines p)
    → p.phase ≡ finished
    → Delivers dest p
    → Got dest a.pre p.system
got lines dest p a f (d, v) = elim (Bool-cases p.dest) [
  | inl set ↦ elim a.marked [
    | inl u ↦ absurd (u f)
    | inr (inl unset) ↦ absurd (ground arith)
    | inr (inr h) ↦
        let (same, none_left) = popped_all lines p a h in
        inl (sym d ∙ set, same, cleanup-empty p.system.buffer 0 none_left)
  ]
  | inr unset ↦ elim a.pushed [
    | inl c ↦ absurd (ground arith)
    | inr (q, u) ↦ inr (sym d ∙ unset, v unset, all_held lines p a (v unset) u)
  ]
]

-- However the steps of the threads and the signals follow each other: when the program ends, the first
-- of the lines that the reader was to report have been pushed, in order and each once, and the mark of
-- the end behind them; and all lines where no signal has cancelled the reader. With a destination
-- the logger has got them all, and not put back; buffer_cleanup then finds no message, and frees the
-- one block that is left. Without a destination it has got nothing, and they all are in the buffer. The
-- condition is that the first block is not NULL.
pub Moves-Ended :
    {p : Threads} (comes_back : List Message → Bool) (fresh : Ptr) (lines : List (List ℕ))
    (dest : Bool)
    → fresh ≢ 0
    → Moves comes_back (begin fresh lines dest) p
    → p.phase ≡ finished
    → (pre : List (List ℕ)) × (rest : List (List ℕ)) × (lines ≡ pre ++ rest)
      × ((p.cancelled ≡ true) ⊎ (rest ≡ []))
      × Got dest pre p.system
Moves-Ended {p = p} comes_back fresh lines dest n path f =
    elim (Moves-Kept fresh lines dest n path) [
      | inl (r, v) ↦ absurd (ground arith)
      | inr (k, a) ↦ (
        a.pre,
        a.rest,
        a.cut,
        a.whole,
        got lines dest p a f (Moves-Delivers fresh lines dest path),
      )
    ]
