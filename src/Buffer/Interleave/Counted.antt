-- ===== src/Buffer/Interleave/Counted.antt =====
-- The buffer with the messages that its semaphore does not count yet, or counts no more.
use genbuf.Prelude.{
  ℕ, suc, ◌+◌, ◌≡◌, refl, sym, ap, ◌∙◌, some, List, [], ◌∷◌, ◌++◌, arith, length, if◌then◌else◌,
}
use genbuf.Buffer.{
  Ptr, Buffer, pops, push, push_grow, create_after, unpop, unpop_grow, unpop_store, pop, pop_load,
  pop_shrink,
}
use genbuf.Buffer.Chain.{IsQueue, IsFresh}
use genbuf.Buffer.Push.{push-IsQueue}
use genbuf.Buffer.Pop.{pop-IsQueue}
use genbuf.Buffer.Unpop.{unpop-IsQueue}
use genbuf.Buffer.Interleave.{
  idle, taking, returning, System, counted, keep_count, keep_popped, store, restore, load,
}

-- messages in the buffer that the semaphore does not count
abbrev pub uncounted : {A : Type 0} → System A → ℕ
uncounted s =
    (if s.posting then 1 else 0) + elim s.logging [ idle ↦ 0 | taking ↦ 1 | returning ↦ 1 ]

-- The buffer holds messages; those popped, those held and those to push are all that there were; and
-- the semaphore counts those held but for a section that is left or entered.
pub record Shared {A : Type 0} (total : List A) (s : System A) : Type 0 where
  pub held : List A
  pub holds : IsQueue (counted s.buffer (length held)) held
  pub counts : s.buffer.semaphore + uncounted s ≡ length held
  pub kept : s.popped ++ (held ++ s.unpushed) ≡ total

module _ {A : Type 0} where
  push-counted :
      (fresh : Ptr) (b : Buffer A) (m : A) (n k : ℕ)
      → keep_count k (push fresh (counted b n) m) ≡ keep_count k (push fresh b m)
  unfolding push push_grow create_after keep_count
  push-counted fresh b m n k = ground arith

  unpop-counted :
      (fresh : Ptr) (b : Buffer A) (m : A) (n k : ℕ)
      → keep_count k (unpop fresh (counted b n) m) ≡ keep_count k (unpop fresh b m)
  unfolding unpop unpop_grow unpop_store keep_count
  unpop-counted fresh b m n k = ground arith

  pop-counted :
      (b : Buffer A) (n j k : ℕ)
      → keep_popped k (pop (counted b (suc n))) ≡ keep_popped k (pop (counted b (suc j)))
  unfolding pop pop_load pop_shrink keep_popped
  pop-counted b n j k = ground arith

  IsQueue-counted :
      {b : Buffer A} {xs : List A} (n : ℕ) → IsQueue b xs → n ≡ length xs → IsQueue (counted b n) xs
  IsQueue-counted n v e = record { ps = v.ps; chain = v.chain; count = e; null_free = v.null_free }

  -- what the sections do to a buffer that holds messages
  pub store-IsQueue :
      (fresh : Ptr) (b : Buffer A) (m : A) (xs : List A)
      → IsQueue (counted b (length xs)) xs
      → IsFresh b.heap fresh
      → (b' : Buffer A) × (store fresh b m ≡ some b')
        × (b'.semaphore ≡ b.semaphore)
        × IsQueue (counted b' (length (xs ++ m ∷ []))) (xs ++ m ∷ [])
  unfolding store keep_count
  store-IsQueue fresh b m xs v u =
      let (b', e, v') = push-IsQueue fresh m v u in
      (
        counted b' b.semaphore,
        sym (push-counted fresh b m (length xs) b.semaphore) ∙ ap (keep_count b.semaphore) e,
        refl,
        IsQueue-counted (length (xs ++ m ∷ [])) v' refl,
      )

  pub restore-IsQueue :
      (fresh : Ptr) (b : Buffer A) (m : A) (xs : List A)
      → IsQueue (counted b (length xs)) xs
      → IsFresh b.heap fresh
      → (b' : Buffer A) × (restore fresh b m ≡ some b')
        × (b'.semaphore ≡ b.semaphore)
        × IsQueue (counted b' (suc (length xs))) (m ∷ xs)
  unfolding restore keep_count
  restore-IsQueue fresh b m xs v u =
      let (b', e, v') = unpop-IsQueue fresh m v u in
      (
        counted b' b.semaphore,
        sym (unpop-counted fresh b m (length xs) b.semaphore) ∙ ap (keep_count b.semaphore) e,
        refl,
        IsQueue-counted (suc (length xs)) v' refl,
      )

  pub load-IsQueue :
      (b : Buffer A) (x : A) (xs : List A)
      → IsQueue (counted b (suc (length xs))) (x ∷ xs)
      → (b' : Buffer A) × (load b ≡ pops x b')
        × (b'.semaphore ≡ b.semaphore)
        × IsQueue (counted b' (length xs)) xs
  unfolding load keep_popped
  load-IsQueue b x xs v =
      let (b', e, v') = pop-IsQueue v in
      (
        counted b' b.semaphore,
        pop-counted b b.semaphore (length xs) b.semaphore ∙ ap (keep_popped b.semaphore) e,
        refl,
        IsQueue-counted (length xs) v' refl,
      )
