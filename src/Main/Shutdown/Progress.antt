-- ===== src/Main/Shutdown/Progress.antt =====
-- The program ends: no order of steps and signals leads to a state in which it is stuck.
use genbuf.Prelude.{
  ℕ, ◌≡◌, ◌≢◌, refl, inl, inr, ◌⊎◌, Bool, true, false, List, [], arith, Bool-cases,
}
use genbuf.Buffer.{Ptr}
use genbuf.Buffer.Chain.{IsFresh}
use genbuf.Buffer.Interleave.Counted.{Shared}
use genbuf.Reader.{cleanup}
use genbuf.Main.Shutdown.{
  reading, cleaning, joining, finished, Message, Threads, reported, has_mark, Move, pushes, logs,
  returns, cleaned, joins, begin, Moves, unforced,
}
use genbuf.Main.Shutdown.Safety.{After, Kept, Moves-Kept}
use genbuf.Main.Shutdown.Steps.{Phase-each, StepBy, push_steps, After-log_steps}

-- a further state, that no signal makes
abbrev pub CanMove : (List Message → Bool) → Threads → Type 0
CanMove comes_back p = (q : Threads) × (move : Move comes_back p q) × (unforced move ≡ true)

module _ {comes_back : List Message → Bool} where
  push_moves :
      (p : Threads)
      → (p.phase ≡ reading) ⊎ (p.phase ≡ cleaning)
      → StepBy false p.system
      → CanMove comes_back p
  unfolding unforced
  push_moves p r (t, step, l) = (_, pushes p t step l r, refl)

  reading_moves :
      (lines : List (List ℕ)) (p : Threads) (fresh : Ptr)
      → p.phase ≡ reading
      → Shared (reported lines) p.system
      → IsFresh p.system.buffer.heap fresh
      → CanMove comes_back p
  unfolding unforced
  reading_moves lines p fresh r v u = elim (push_steps p.system (reported lines) fresh v u) [
    | inl step ↦ push_moves p (inl r) step
    | inr (q, e) ↦ (_, returns p r q e, refl)
  ]

  cleaning_moves :
      (lines : List (List ℕ)) (p : Threads) (fresh : Ptr)
      → p.phase ≡ cleaning
      → After lines p
      → IsFresh p.system.buffer.heap fresh
      → CanMove comes_back p
  unfolding unforced
  cleaning_moves lines p fresh c a u = elim (push_steps p.system (cleanup a.pre) fresh a.shared u) [
    | inl step ↦ push_moves p (inr c) step
    | inr (q, e) ↦ (_, cleaned p c q e, refl)
  ]

  joining_moves :
      (lines : List (List ℕ)) (p : Threads)
      → ((ms : List Message) → comes_back ms ≡ true)
      → p.phase ≡ joining
      → After lines p
      → p.system.posting ≡ false
      → p.system.unpushed ≡ []
      → CanMove comes_back p
  unfolding unforced
  joining_moves lines p back j a q e = elim (Bool-cases p.dest) [
    | inr none_set ↦ (_, joins p j (inl none_set), refl)
    | inl set ↦ elim (Bool-cases (has_mark p.system.popped)) [
      | inl h ↦ (_, joins p j (inr h), refl)
      | inr h ↦
          let (t, step, l, _) = After-log_steps lines p a q e h in
          (_, logs p t step l set h (back p.system.popped), refl)
    ]
  ]

  Kept-CanMove :
      (lines : List (List ℕ)) (p : Threads) (fresh : Ptr)
      → ((ms : List Message) → comes_back ms ≡ true)
      → Kept lines p
      → IsFresh p.system.buffer.heap fresh
      → (p.phase ≡ finished) ⊎ CanMove comes_back p
  Kept-CanMove lines p fresh back (inl (r, v)) u = inr (reading_moves lines p fresh r v u)
  Kept-CanMove lines p fresh back (inr (k, a)) u = elim (Phase-each p.phase) [
    | inl f ↦ inl f
    | inr (inl j) ↦ elim a.pushed [
      | inl c ↦ absurd (ground arith)
      | inr (q, e) ↦ inr (joining_moves lines p back j a q e)
    ]
    | inr (inr (inl r)) ↦ absurd (k r)
    | inr (inr (inr c)) ↦ inr (cleaning_moves lines p fresh c a u)
  ]

-- Where the program has not ended, one of its threads can go on without a further signal, in each state
-- that steps and signals lead to: the mutex, the semaphore and the joins never leave both threads
-- waiting. The conditions are that the logger comes back to the buffer whatever it has got, so that each
-- of its deliveries returns and a message that is not sent gets to a backlog; that malloc has an
-- address in that state, and that the first block is not NULL.
pub Moves-CanMove :
    {p : Threads} (comes_back : List Message → Bool) (fresh more : Ptr) (lines : List (List ℕ))
    (dest : Bool)
    → ((ms : List Message) → comes_back ms ≡ true)
    → fresh ≢ 0
    → Moves comes_back (begin fresh lines dest) p
    → IsFresh p.system.buffer.heap more
    → (p.phase ≡ finished) ⊎ CanMove comes_back p
Moves-CanMove {p = p} comes_back fresh more lines dest back n path u =
    Kept-CanMove lines p more back (Moves-Kept fresh lines dest n path) u
