-- ===== src/Buffer.antt =====
-- src/buffer.c and buffer.h: the queue of messages between the reader and the logger, a chain of
-- blocks of 1000 slots on the heap with a counting semaphore.
-- `push`, `unpop` and `pop` are the sections between pthread_mutex_lock and pthread_mutex_unlock
-- with the semaphore operation beside them. malloc succeeds; the address that it returns is an
-- argument. `none` is a fault: a read through NULL or through a block that is not allocated, or of
-- a slot that was never written.
pub mod Chain
pub mod Push
pub mod Pop
pub mod Unpop
pub mod Interleave
pub mod Cleanup
mod Tests
use genbuf.Prelude.{
  ℕ, zero, suc, ◌+◌, ◌-◌, ◌≡◌, ◌≢◌, Option, none, some, List, [], ◌∷◌, ◌++◌, ◌==◌, if◌then◌else◌,
  ltb,
}

abbrev pub Ptr : Type 0
Ptr = ℕ

abbrev pub null : Ptr
null = 0

abbrev pub realloc_size : ℕ
realloc_size = 1000

module _ {A : Type 0} where
  -- an assignment to one slot of an array, or to one address of the heap
  abbrev pub assign : (ℕ → A) → ℕ → A → ℕ → A
  assign f i v j = if i == j then v else f j

-- `struct msgqueue`
pub record Block (A : Type 0) : Type 0 where
  pub msgs : ℕ → Option A
  pub next : Ptr

abbrev pub Heap : Type 0 → Type 0
Heap A = Ptr → Option (Block A)

-- `struct buffer`, with the heap that its blocks lie on
pub record Buffer (A : Type 0) : Type 0 where
  pub heap : Heap A
  pub semaphore : ℕ
  pub headindex : ℕ
  pub endindex : ℕ
  pub head : Ptr
  pub current : Ptr

-- `blocks` is sem_wait at a semaphore of 0.
pub data Popped (A : Type 0) : Type 0 where
  pops : A → Buffer A → Popped A
  blocks : Popped A
  fault : Popped A

module _ {A : Type 0} where
  abbrev pub block : (ℕ → Option A) → Ptr → Block A
  block msgs next = record { msgs = msgs; next = next }

  abbrev pub empty_block : Block A
  empty_block = block (λ i. none) null

  unfoldable pub init : (fresh : Ptr) → Buffer A
  init fresh = record {
    heap = assign (λ p. none) fresh (some empty_block);
    semaphore = 0;
    headindex = 0;
    endindex = 0;
    head = fresh;
    current = fresh;
  }

  -- create_internal_buffer(prev) where prev is not NULL
  pub create_after : (fresh prev : Ptr) → Heap A → Option (Heap A)
  create_after fresh prev h = elim (h prev) [
    | none ↦ none
    | some b ↦
        some (assign (assign h fresh (some empty_block)) prev (some (record b { next = fresh })))
  ]

  -- the slot at `endindex`, and a new block where that was the last slot
  unfoldable pub push_grow : (fresh : Ptr) → Buffer A → Option (Buffer A)
  push_grow fresh b =
      if b.endindex == realloc_size
      then elim (create_after fresh b.current b.heap) [
        | none ↦ none
        | some h ↦ some (record b { heap = h; current = fresh; endindex = 0 })
      ]
      else some b

  unfoldable pub push : (fresh : Ptr) → Buffer A → A → Option (Buffer A)
  unfolding push_grow create_after
  push fresh b m = elim (b.heap b.current) [
    | none ↦ none
    | some c ↦ push_grow fresh (record b {
      heap = assign b.heap b.current (some (record c { msgs = assign c.msgs b.endindex (some m) }));
      endindex = b.endindex + 1;
      semaphore = b.semaphore + 1;
    })
  ]

  -- a new head block where the head block has no slot before `headindex`
  unpop_grow : (fresh : Ptr) → Buffer A → Buffer A
  unpop_grow fresh b =
      if b.headindex == 0
      then record b {
        heap = assign b.heap fresh (some (block (λ i. none) b.head));
        head = fresh;
        headindex = realloc_size;
      }
      else b

  unpop_store : Buffer A → A → Option (Buffer A)
  unpop_store b m = elim (b.heap b.head) [
    | none ↦ none
    | some c ↦ some (record b {
      heap =
          assign b.heap b.head
            (some (record c { msgs = assign c.msgs (b.headindex - 1) (some m) }));
      headindex = b.headindex - 1;
      semaphore = b.semaphore + 1;
    })
  ]

  pub unpop : (fresh : Ptr) → Buffer A → A → Option (Buffer A)
  unfolding unpop_grow unpop_store
  unpop fresh b m = unpop_store (unpop_grow fresh b) m

  -- the head block is freed where its last slot was read
  unfoldable pub pop_shrink : Buffer A → Block A → Buffer A
  pop_shrink b c =
      if (b.headindex + 1) == realloc_size
      then record b {
        heap = assign b.heap b.head none;
        head = c.next;
        headindex = 0;
        semaphore = b.semaphore - 1;
      }
      else record b { headindex = b.headindex + 1; semaphore = b.semaphore - 1 }

  unfoldable pub pop_load : Buffer A → Block A → Popped A
  pop_load b c = elim (c.msgs b.headindex) [ none ↦ fault | some m ↦ pops m (pop_shrink b c) ]

  unfoldable pub pop : Buffer A → Popped A
  unfolding pop_shrink pop_load
  pop b =
      if b.semaphore == 0
      then blocks
      else elim (b.heap b.head) [ none ↦ fault | some c ↦ pop_load b c ]

  pub size : Buffer A → ℕ
  size b = b.semaphore

  -- the messages from `index` on, `count` of them, which are freed
  free_msgs : (ℕ → Option A) → (index count : ℕ) → Option (List A)
  free_msgs msgs index zero = some []
  free_msgs msgs index (suc count) = elim (msgs index) [
    | none ↦ none
    | some m ↦ elim (free_msgs msgs (index + 1) count) [ none ↦ none | some ms ↦ some (m ∷ ms) ]
  ]

  -- the loop over the blocks; one round for each block, and one for the NULL behind the last
  cleanup_loop : ℕ → (endindex : ℕ) → Heap A → (curr : Ptr) → (index : ℕ) → Option (List A × Heap A)
  cleanup_loop zero e h curr index = none
  cleanup_loop (suc rounds) e h curr index =
      let rest = λ (next : Ptr). cleanup_loop rounds e (assign h curr none) next realloc_size in
      if curr == null then some ([], h) else elim (h curr) [
        | none ↦ none
        | some c ↦
            let end = if c.next == null then e else realloc_size in
            elim (free_msgs c.msgs index (end - index)) [
              | none ↦ none
              | some ms ↦ elim (rest c.next) [
                | none ↦ none
                | some (more, h') ↦ some (ms ++ more, h')
              ]
            ]
      ]

  -- the messages that are freed, and the heap that is left
  pub cleanup : ℕ → Buffer A → Option (List A × Heap A)
  unfolding cleanup_loop free_msgs
  cleanup rounds b = cleanup_loop rounds b.endindex b.heap b.head b.headindex
