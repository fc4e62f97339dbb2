-- ===== src/Buffer/Pop.antt =====
-- `buffer_pop`: the oldest message is taken, and a block whose last slot was read is freed.
use genbuf.Prelude.{
  ℕ, ◌+◌, ◌-◌, ◌<◌, ◌≡◌, refl, sym, ap, ◌∙◌, Option, none, some, List, [], ◌∷◌, ◌++◌, arith, length,
  subst,
}
use genbuf.Buffer.{Ptr, null, realloc_size, assign, block, Heap, Buffer, pops, blocks, pop}
use genbuf.Buffer.Chain.{Chain, last, more, IsQueue, Chain-frame}

-- Taking the first message off a chain: from the block that it lies in, or with that block freed.
data Taken {A : Type 0} (h : Heap A) (cur : Ptr) (e : ℕ) (p : Ptr) (i : ℕ) (x : A) (xs : List A)
    : Type 0 where
  stays :
      {ps : List Ptr} (msgs : ℕ → Option A) (q : Ptr)
      → h p ≡ some (block msgs q)
      → msgs i ≡ some x
      → i + 1 < realloc_size
      → Chain h cur e p (i + 1) ps xs
      → Taken h cur e p i x xs
  leaves :
      {ps : List Ptr} (msgs : ℕ → Option A) (q : Ptr)
      → h p ≡ some (block msgs q)
      → msgs i ≡ some x
      → i + 1 ≡ realloc_size
      → Chain (assign h p none) cur e q 0 ps xs
      → Taken h cur e p i x xs

module _ {A : Type 0} {h : Heap A} {cur : Ptr} {e : ℕ} where
  take_first :
      {p : Ptr} {i : ℕ} {ps : List Ptr} {zs : List A} (x : A) (xs : List A)
      → Chain h cur e p i ps zs
      → zs ≡ x ∷ xs
      → Taken h cur e p i x xs
  take_first {i = i} x xs (last {msgs} {xs = []} at c s l k) w = absurd (cc)
  take_first {i = i} x xs (last {p} {msgs} {xs = y ∷ ys} at c s l k) w =
      let ey : y ≡ x = ground arith in
      let es : ys ≡ xs = ground arith in
      stays {ps = p ∷ []} msgs null at (s.0 ∙ ap some ey) (omega arith)
        (last at c (rw (← es) s.1) (omega (arith, ap length es)) k)
  take_first {i = i} x xs (more [] at s k l d r q) w = absurd (omega arith)
  take_first {p} {i} x xs (more {q} {msgs} {ps} (y ∷ []) {ys = rest} at s k l d r u) w =
      let ey : y ≡ x = ground arith in
      let es : rest ≡ xs = ground arith in
      leaves {ps = ps} msgs q at (s.0 ∙ ap some ey) (omega arith)
        (subst (λ t. Chain (assign h p none) cur e q 0 ps t) es (Chain-frame p none r d))
  take_first {p} {i} x xs (more {q} {msgs} {ps} (y ∷ z ∷ ys) {ys = rest} at s k l d r u) w =
      let ey : y ≡ x = ground arith in
      let es : z ∷ (ys ++ rest) ≡ xs = ground arith in
      stays {ps = p ∷ ps} msgs q at (s.0 ∙ ap some ey) (omega arith)
        (more (z ∷ ys) at s.1 (omega arith) (omega arith) d r (sym es))

pop-Taken :
    {A : Type 0} {b : Buffer A} {x : A} {xs : List A}
    → IsQueue b (x ∷ xs)
    → Taken b.heap b.current b.endindex b.head b.headindex x xs
    → (b' : Buffer A) × (pop b ≡ pops x b') × IsQueue b' xs
unfolding pop
pop-Taken {A} {b} {x} {xs} v (stays {ps} msgs q at here space rest) = (
  record b { headindex = b.headindex + 1; semaphore = b.semaphore - 1 },
  ground (arith, at, here, v.count),
  record { ps = ps; chain = rest; count = omega (arith, v.count); null_free = v.null_free },
)
pop-Taken {A} {b} {x} {xs} v (leaves {ps} msgs q at here full rest) = (
  record b {
    heap = assign b.heap b.head none;
    head = q;
    headindex = 0;
    semaphore = b.semaphore - 1;
  },
  ground (arith, at, here, v.count),
  record {
    ps = ps;
    chain = rest;
    count = omega (arith, v.count);
    null_free = ground (arith, v.null_free);
  },
)

-- `pop` on a buffer that holds a message returns the oldest one, and the buffer then holds the
-- others.
pub pop-IsQueue :
    {A : Type 0} {b : Buffer A} {x : A} {xs : List A}
    → IsQueue b (x ∷ xs)
    → (b' : Buffer A) × (pop b ≡ pops x b') × IsQueue b' xs
pop-IsQueue {x = x} {xs} v = pop-Taken v (take_first x xs v.chain refl)

-- On an empty buffer it blocks.
pub pop-nil : {A : Type 0} {b : Buffer A} → IsQueue b [] → pop b ≡ blocks
unfolding pop
pop-nil v = ground (arith, v.count)
