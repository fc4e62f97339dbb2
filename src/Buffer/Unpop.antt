-- ===== src/Buffer/Unpop.antt =====
-- `buffer_unpop`: the message goes before the others.
use genbuf.Prelude.{
  ℕ, ◌+◌, ◌-◌, ◌≡◌, ◌≢◌, refl, ap, Option, none, some, List, [], ◌∷◌, arith, subst,
}
use native.Mathlib.Decide.{ℕ_discrete}
use genbuf.Buffer.{Ptr, null, assign, block, Heap, Buffer, pops, pop, unpop}
use genbuf.Buffer.Chain.{
  Chain, last, more, IsQueue, IsFresh, Chain-frame, Chain-Apart, Slots-assign_before,
}
use genbuf.Buffer.Pop.{pop-IsQueue}

-- the head block with the message in the slot before the first
record Prepended {A : Type 0} (h : Heap A) (cur : Ptr) (e : ℕ) (p : Ptr) (k : ℕ) (m : A)
    (xs : List A) : Type 0 where
  ps : List Ptr
  msgs : ℕ → Option A
  next : Ptr
  at : h p ≡ some (block msgs next)
  chain : Chain (assign h p (some (block (assign msgs k (some m)) next))) cur e p k ps (m ∷ xs)

prepend :
    {A : Type 0} {h : Heap A} {cur : Ptr} {e : ℕ} {p : Ptr} {i : ℕ} {ps : List Ptr} {xs : List A}
    (k : ℕ) (m : A)
    → Chain h cur e p i ps xs
    → i ≡ k + 1
    → Prepended h cur e p k m xs
prepend {h = h} {cur} {e} {xs = xs} k m (last {p} {i} {msgs} at c s l r) w = record {
  ps = p ∷ [];
  msgs = msgs;
  next = null;
  at = at;
  chain =
      last {msgs = assign msgs k (some m)} (ground arith) c
        (ground arith, rw (← w) (Slots-assign_before msgs i k (some m) xs s (omega arith)))
        (omega arith) r;
}
prepend {h = h} {cur} {e} k m (more {p} {q} {i} {msgs} {ps} xs at s j l d r u) w = record {
  ps = p ∷ ps;
  msgs = msgs;
  next = q;
  at = at;
  chain =
      more {msgs = assign msgs k (some m)} (m ∷ xs) (ground arith)
        (ground arith, rw (← w) (Slots-assign_before msgs i k (some m) xs s (omega arith)))
        (omega arith) (omega arith) d (Chain-frame p _ r d) (ap (◌∷◌ m) u);
}

module _ {A : Type 0} {b : Buffer A} {xs : List A} (fresh : Ptr) (m : A) (v : IsQueue b xs)
    (u : IsFresh b.heap fresh) where
  unpop_in_block :
      b.headindex ≢ 0 → (b' : Buffer A) × (unpop fresh b m ≡ some b') × IsQueue b' (m ∷ xs)
  unfolding unpop
  unpop_in_block e =
      let k = b.headindex - 1 in
      let w = prepend k m v.chain (omega arith) in
      (
        record b {
          heap = assign b.heap b.head (some (block (assign w.msgs k (some m)) w.next));
          headindex = k;
          semaphore = b.semaphore + 1;
        },
        ground (arith, w.at),
        record {
          ps = w.ps;
          chain = w.chain;
          count = omega (arith, v.count);
          null_free = ground (arith, w.at, v.null_free);
        },
      )

  abbrev in_new_block : Buffer A
  in_new_block = record b {
    heap =
        assign (assign b.heap fresh (some (block (λ i. none) b.head))) fresh
          (some (block (assign (λ i. none) 999 (some m)) b.head));
    head = fresh;
    headindex = 999;
    semaphore = b.semaphore + 1;
  }

  new_block-Chain :
      b.headindex ≡ 0
      → Chain in_new_block.heap b.current b.endindex fresh 999 (fresh ∷ v.ps) (m ∷ xs)
  new_block-Chain e =
      let apart = Chain-Apart fresh v.chain u.unused in
      let rest = Chain-frame fresh _ (Chain-frame fresh _ v.chain apart) apart in
      more {msgs = assign (λ i. none) 999 (some m)} (m ∷ []) (ground arith) (ground arith, tt)
        (omega arith) (omega arith) apart
        (subst (λ i. Chain in_new_block.heap b.current b.endindex b.head i v.ps xs) e rest) refl

  unpop_in_new_block :
      b.headindex ≡ 0 → (b' : Buffer A) × (unpop fresh b m ≡ some b') × IsQueue b' (m ∷ xs)
  unfolding unpop
  unpop_in_new_block e = (
    in_new_block,
    ground (arith, e),
    record {
      ps = fresh ∷ v.ps;
      chain = new_block-Chain e;
      count = omega (arith, v.count);
      null_free = ground (arith, v.null_free, u.ne_null);
    },
  )

  -- `unpop` on a buffer that holds `xs` succeeds, where malloc returns an address that is free, and the
  -- buffer then holds the message before them.
  pub unpop-IsQueue : (b' : Buffer A) × (unpop fresh b m ≡ some b') × IsQueue b' (m ∷ xs)
  unpop-IsQueue = elim (ℕ_discrete b.headindex 0) [
    | yes e ↦ unpop_in_new_block e
    | no ne ↦ unpop_in_block ne
  ]

  -- A message that is put back is the next to be taken, and the others stay as they were.
  pub pop-unpop :
      (b' b'' : Buffer A) × (unpop fresh b m ≡ some b') × (pop b' ≡ pops m b'') × IsQueue b'' xs
  pop-unpop =
      let (b', e, v') = unpop-IsQueue in
      let (b'', e', v'') = pop-IsQueue v' in (b', b'', e, e', v'')
