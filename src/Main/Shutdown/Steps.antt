-- ===== src/Main/Shutdown/Steps.antt =====
-- The steps that each thread can take.
use genbuf.Prelude.{
  ℕ, suc, zero, ◌+◌, ◌*◌, ◌≡◌, refl, sym, inl, inr, ◌⊎◌, Bool, true, false, List, [], ◌∷◌, ◌++◌,
  ◌<◌, append-nil, arith, length, Bool-cases, List-cases, subst,
}
use genbuf.Buffer.{Ptr, Buffer, pops}
use genbuf.Buffer.Chain.{IsFresh}
use genbuf.Buffer.Interleave.{
  Logging, idle, taking, returning, System, Step, stores, posts, waits, loads, reposts, load,
  keep_popped,
}
use genbuf.Buffer.Interleave.Safety.{loaded}
use genbuf.Buffer.Interleave.Counted.{Shared, uncounted, store-IsQueue}
use genbuf.Reader.{cleanup}
use genbuf.Main.Shutdown.{
  Phase, reading, cleaning, joining, finished, Message, Threads, has_mark, by_logger,
}
use genbuf.Main.Shutdown.Safety.{After}

Logging-each : (l : Logging) → (l ≡ idle) ⊎ ((l ≡ taking) ⊎ (l ≡ returning))
Logging-each idle = inl refl
Logging-each taking = inr (inl refl)
Logging-each returning = inr (inr refl)

pub Phase-each : (f : Phase) → (f ≡ finished) ⊎ ((f ≡ joining) ⊎ ((f ≡ reading) ⊎ (f ≡ cleaning)))
Phase-each reading = inr (inr (inl refl))
Phase-each cleaning = inr (inr (inr refl))
Phase-each joining = inr (inl refl)
Phase-each finished = inl refl

abbrev pub StepBy : Bool → System Message → Type 0
StepBy who s = (t : System Message) × (step : Step s t) × (by_logger step ≡ who)

store_steps :
    (s : System Message) (total : List Message) (fresh : Ptr) (m : Message) (ms : List Message)
    → Shared total s
    → IsFresh s.buffer.heap fresh
    → s.posting ≡ false
    → s.unpushed ≡ m ∷ ms
    → StepBy false s
unfolding by_logger
store_steps s total fresh m ms v u q e =
    let (b, stored, _, _) = store-IsQueue fresh s.buffer m v.held v.holds u in
    (_, stores s fresh m ms b q e u stored, refl)

-- The thread that pushes has a step while it has something to push or to post.
pub push_steps :
    (s : System Message) (total : List Message) (fresh : Ptr)
    → Shared total s
    → IsFresh s.buffer.heap fresh
    → StepBy false s ⊎ ((s.posting ≡ false) × (s.unpushed ≡ []))
unfolding by_logger
push_steps s total fresh v u = elim (Bool-cases s.posting) [
  | inl q ↦ inl (_, posts s q, refl)
  | inr q ↦ elim (List-cases s.unpushed) [
    | inl e ↦ inr (q, e)
    | inr (m, ms, e) ↦ inl (store_steps s total fresh m ms v u q e)
  ]
]

-- how far the logger is from the end of the messages in the buffer, where it puts none back
abbrev pub weight : System Message → ℕ
weight s =
    2 * (s.buffer.semaphore + uncounted s)
    + elim s.logging [ idle ↦ 1 | taking ↦ 0 | returning ↦ 2 ]

abbrev LogStep : System Message → Type 0
LogStep s =
    (t : System Message) × (step : Step s t) × (by_logger step ≡ true) × (weight t < weight s)

idle_steps :
    (s : System Message) (n : ℕ) → s.logging ≡ idle → s.buffer.semaphore ≡ n → 0 < n → LogStep s
unfolding by_logger
idle_steps s zero i e h = absurd (omega arith)
idle_steps s (suc n) i e h = (_, waits s n i e, refl, rw (e, i) (omega arith))

load-semaphore :
    (b b' : Buffer Message) (m : Message) → load b ≡ pops m b' → b'.semaphore ≡ b.semaphore
unfolding load keep_popped
load-semaphore b b' m e = ground arith

-- The logger has a step while the buffer holds a message that is posted.
log_steps :
    (s : System Message) (total : List Message)
    → Shared total s
    → s.posting ≡ false
    → 0 < s.buffer.semaphore + uncounted s
    → LogStep s
unfolding by_logger
log_steps s total v q h = elim (Logging-each s.logging) [
  | inl i ↦ idle_steps s s.buffer.semaphore i refl (omega (arith, rw (q, i) at h))
  | inr (inl i) ↦
      let (m, b, e) = loaded s total v i in
      (_, loads s m b i e, refl, rw (load-semaphore s.buffer b m e, i) (omega arith))
  | inr (inr i) ↦ (_, reposts s i, refl, rw i (omega arith))
]

has_mark-cleanup : (pre : List (List ℕ)) → has_mark (cleanup pre) ≡ true
unfolding has_mark cleanup
has_mark-cleanup [] = refl
has_mark-cleanup (line ∷ pre) = has_mark-cleanup pre

-- The mark is among the messages in the buffer while it is not popped.
held-mark :
    (popped held : List Message) (pre : List (List ℕ))
    → popped ++ (held ++ []) ≡ cleanup pre
    → has_mark popped ≡ false
    → 0 < length held
held-mark popped (m ∷ held) pre e h = omega arith
held-mark popped [] pre e h = absurd (ground (arith, has_mark-cleanup pre, append-nil popped))

-- The logger goes on while it has not popped the mark and the reader has ended.
pub After-log_steps :
    (lines : List (List ℕ)) (p : Threads)
    → After lines p
    → p.system.posting ≡ false
    → p.system.unpushed ≡ []
    → has_mark p.system.popped ≡ false
    → LogStep p.system
After-log_steps lines p a q u h = log_steps p.system (cleanup a.pre) a.shared q (
    subst (λ n. 0 < n) (sym a.shared.counts)
      (held-mark p.system.popped a.shared.held a.pre (rw u at a.shared.kept) h))
