-- ===== src/Buffer/Tests.antt =====
-- buffer.c with a few messages, and its theorems there. Messages are numbers.
use genbuf.Prelude.{
  ℕ, ◌≡◌, refl, true, false, [], ◌∷◌, arith, none, some, Option, List, length, ◌≢◌, ◌⊎◌, ◌+◌, ◌++◌,
}
use genbuf.Buffer.{null, assign, block, Buffer, pops, blocks, init, push, push_grow, pop, cleanup}
use genbuf.Buffer.Chain.{last, more, IsQueue, IsFresh}
use genbuf.Buffer.Push.{push-IsQueue}
use genbuf.Buffer.Pop.{pop-IsQueue}
use genbuf.Buffer.Interleave
use genbuf.Buffer.Interleave.{
  System, idle, taking, counted, load, Step, stores, posts, waits, begin, Reach, here, next,
}
use genbuf.Buffer.Interleave.Safety.{Reach-Shared}
use genbuf.Buffer.Interleave.Counted.{uncounted}
use genbuf.Buffer.Cleanup.{without, cleanup_lem}

-- 7 in the last slot of the block at 1, and 8 in the first slot of the block at 2
abbrev first_msgs : ℕ → Option ℕ
first_msgs = assign (λ i. none) 999 (some 7)

abbrev second_msgs : ℕ → Option ℕ
second_msgs = assign (λ i. none) 0 (some 8)

abbrev two_blocks : Buffer ℕ
two_blocks = record {
  heap =
      assign (assign (λ p. none) 1 (some (block first_msgs 2))) 2 (some (block second_msgs null));
  semaphore = 2;
  headindex = 999;
  endindex = 1;
  head = 1;
  current = 2;
}

two_blocks-IsQueue : IsQueue two_blocks (7 ∷ 8 ∷ [])
two_blocks-IsQueue = record {
  ps = 1 ∷ 2 ∷ [];
  chain =
      more {msgs = first_msgs} (7 ∷ []) refl (refl, tt) (omega arith) refl (omega arith, tt)
        (last {msgs = second_msgs} refl refl (refl, tt) refl (omega arith)) refl;
  count = refl;
  null_free = refl;
}

three-IsFresh : IsFresh two_blocks.heap 3
three-IsFresh = record { ne_null = omega arith; unused = refl }

-- the first `pop` frees the head block
pop_twice :
    pop two_blocks
    ≡ pops 7 (record two_blocks {
      heap = assign two_blocks.heap 1 none;
      head = 2;
      headindex = 0;
      semaphore = 1;
    })
unfolding pop
pop_twice = refl

empty_pop : pop (init {A = ℕ} 1) ≡ blocks
unfolding pop init
empty_pop = refl

push-IsQueue_example : (b : Buffer ℕ) × (push 3 two_blocks 9 ≡ some b) × IsQueue b (7 ∷ 8 ∷ 9 ∷ [])
push-IsQueue_example = push-IsQueue 3 9 two_blocks-IsQueue three-IsFresh

pop-IsQueue_example : (b : Buffer ℕ) × (pop two_blocks ≡ pops 7 b) × IsQueue b (8 ∷ [])
pop-IsQueue_example = pop-IsQueue two_blocks-IsQueue

cleanup_lem_example : cleanup 3 two_blocks ≡ some (7 ∷ [], without (1 ∷ 2 ∷ []) two_blocks.heap)
unfolding two_blocks-IsQueue
cleanup_lem_example = cleanup_lem 3 two_blocks-IsQueue (omega arith)

-- the block of a new buffer with 7 in it
abbrev seven : Buffer ℕ
seven = record {
  heap =
      assign (assign (λ p. none) 1 (some (block (λ i. none) null))) 1
        (some (block (assign (λ i. none) 0 (some 7)) null));
  semaphore = 0;
  headindex = 0;
  endindex = 1;
  head = 1;
  current = 1;
}

-- The reader has pushed 7 of two messages; it is before its sem_post, then behind it, and the logger
-- is behind its sem_wait.
abbrev one_stored : System ℕ
one_stored = record {
  buffer = seven;
  unpushed = 8 ∷ [];
  posting = true;
  logging = idle;
  popped = [];
}

abbrev one_posted : System ℕ
one_posted = record one_stored { buffer = record seven { semaphore = 1 }; posting = false }

abbrev one_pushed : System ℕ
one_pushed = record one_posted { buffer = seven; logging = taking }

begin-one_stored : Step (begin 1 (7 ∷ 8 ∷ [])) one_stored
unfolding Interleave.store push push_grow Interleave.keep_count init
begin-one_stored =
    stores (begin 1 (7 ∷ 8 ∷ [])) 2 7 (8 ∷ []) seven refl refl
      (record { ne_null = omega arith; unused = refl }) refl

one_pushed-Reach : Reach (begin 1 (7 ∷ 8 ∷ [])) one_pushed
one_pushed-Reach =
    next (next (next here begin-one_stored) (posts one_stored refl)) (waits one_posted 0 refl refl)

Reach-Shared_example :
    (held : List ℕ) × IsQueue (counted one_pushed.buffer (length held)) held
    × ([] ++ (held ++ 8 ∷ []) ≡ 7 ∷ 8 ∷ [])
    × (one_pushed.buffer.semaphore + uncounted one_pushed ≡ length held)
    × ((one_pushed.logging ≢ taking)
        ⊎ ((m : ℕ) × (b : Buffer ℕ) × (load one_pushed.buffer ≡ pops m b)))
unfolding init
Reach-Shared_example = Reach-Shared 1 (7 ∷ 8 ∷ []) one_pushed (ground arith) one_pushed-Reach
