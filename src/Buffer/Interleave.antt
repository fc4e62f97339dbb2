-- ===== src/Buffer/Interleave.antt =====
-- The buffer between the threads of the reader and of the logger: src/buffer.c with the mutex and the
-- semaphore as calls of their own. A critical section is one step of the thread that holds the mutex,
-- sem_post() and sem_wait() are others, and the threads take their steps in any order.
-- The reader has messages to push. The logger pops, and puts back a message that it has just popped.
pub mod Counted
pub mod Safety
use genbuf.Prelude.{
  ℕ, zero, suc, ◌+◌, ◌-◌, ◌≡◌, ◌≢◌, refl, sym, ap, ap₂, ◌∙◌, subst, Bool, true, false, Bool-cases,
  inl, inr, Option, none, some, Option-cases, List, [], ◌∷◌, ◌++◌, append_assoc, append-nil, arith,
  length, length-append, ◌==◌, if◌then◌else◌,
}
use genbuf.Buffer.{
  Ptr, Block, Heap, Buffer, Popped, pops, blocks, fault, init, push, push_grow, create_after, unpop,
  unpop_grow, unpop_store, pop, pop_load, pop_shrink, realloc_size, assign,
}
use genbuf.Buffer.Chain.{IsQueue, IsFresh, init-IsQueue}
use genbuf.Buffer.Push.{push-IsQueue}
use genbuf.Buffer.Pop.{pop-IsQueue}
use genbuf.Buffer.Unpop.{unpop-IsQueue}

-- what the logger's thread does next: anything, the section of pop, or the sem_post of unpop
pub data Logging : Type 0 where
  idle taking returning : Logging

pub record System (A : Type 0) : Type 0 where
  pub buffer : Buffer A
  pub unpushed : List A
  pub posting : Bool
  pub logging : Logging
  pub popped : List A

module _ {A : Type 0} where
  abbrev pub counted : Buffer A → ℕ → Buffer A
  counted b n = record b { semaphore = n }

  unfoldable pub keep_count : ℕ → Option (Buffer A) → Option (Buffer A)
  keep_count n none = none
  keep_count n (some b) = some (counted b n)

  unfoldable pub keep_popped : ℕ → Popped A → Popped A
  keep_popped n (pops m b) = pops m (counted b n)
  keep_popped n blocks = blocks
  keep_popped n fault = fault

  -- the critical sections of push, of unpop, and of pop behind its sem_wait
  unfoldable pub store : (fresh : Ptr) → Buffer A → A → Option (Buffer A)
  store fresh b m = keep_count b.semaphore (push fresh b m)

  unfoldable pub restore : (fresh : Ptr) → Buffer A → A → Option (Buffer A)
  restore fresh b m = keep_count b.semaphore (unpop fresh b m)

  unfoldable pub load : Buffer A → Popped A
  load b = keep_popped b.semaphore (pop (counted b (suc b.semaphore)))

  abbrev pub post : Buffer A → Buffer A
  post b = counted b (suc b.semaphore)

pub data Step {A : Type 0} : System A → System A → Type 0 where
  stores :
      (s : System A) (fresh : Ptr) (m : A) (ms : List A) (b : Buffer A)
      → s.posting ≡ false
      → s.unpushed ≡ m ∷ ms
      → IsFresh s.buffer.heap fresh
      → store fresh s.buffer m ≡ some b
      → Step s (record s { buffer = b; unpushed = ms; posting = true })
  posts :
      (s : System A)
      → s.posting ≡ true
      → Step s (record s { buffer = post s.buffer; posting = false })
  waits :
      (s : System A) (n : ℕ)
      → s.logging ≡ idle
      → s.buffer.semaphore ≡ suc n
      → Step s (record s { buffer = counted s.buffer n; logging = taking })
  loads :
      (s : System A) (m : A) (b : Buffer A)
      → s.logging ≡ taking
      → load s.buffer ≡ pops m b
      → Step s (record s { buffer = b; logging = idle; popped = s.popped ++ m ∷ [] })
  restores :
      (s : System A) (fresh : Ptr) (m : A) (ms : List A) (b : Buffer A)
      → s.logging ≡ idle
      → s.popped ≡ ms ++ m ∷ []
      → IsFresh s.buffer.heap fresh
      → restore fresh s.buffer m ≡ some b
      → Step s (record s { buffer = b; logging = returning; popped = ms })
  reposts :
      (s : System A)
      → s.logging ≡ returning
      → Step s (record s { buffer = post s.buffer; logging = idle })

-- a new buffer, and the messages of the reader
abbrev pub begin : {A : Type 0} → Ptr → List A → System A
begin fresh msgs = record {
  buffer = init fresh;
  unpushed = msgs;
  posting = false;
  logging = idle;
  popped = [];
}

pub data Reach {A : Type 0} (s : System A) : System A → Type 0 where
  here : Reach s s
  next : {t u : System A} → Reach s t → Step t u → Reach s u
