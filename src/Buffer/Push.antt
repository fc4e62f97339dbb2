-- ===== src/Buffer/Push.antt =====
-- `buffer_push`: the message goes behind the others.
use genbuf.Prelude.{
  subst, ℕ, ◌+◌, ◌<◌, ◌≡◌, ◌≢◌, refl, sym, ap, ◌∙◌, Option, none, some, List, [], ◌∷◌, ◌++◌,
  append_assoc, append-nil, arith, length, length-append, ◌==◌, Bool-cases, inl, inr,
}
use genbuf.Buffer.{Ptr, null, realloc_size, assign, Block, block, Heap, Buffer, empty_block, push}
use genbuf.Buffer.Chain.{
  Slots, Apart, Apart-append, Chain, last, more, IsQueue, IsFresh, Chain-start, Slots-snoc,
}

module _ {A : Type 0} {h : Heap A} {cur : Ptr} {e : ℕ} where
  -- the block at which `push` writes
  Chain-current :
      {p : Ptr} {i : ℕ} {ps : List Ptr} {xs : List A}
      → Chain h cur e p i ps xs
      → (msgs : ℕ → Option A) × (h cur ≡ some (block msgs null)) × (e < realloc_size)
  Chain-current (last {msgs} at c s l k) = (msgs, ground arith, k)
  Chain-current (more xs at s k l a r w) = Chain-current r

  -- A heap that differs from `h` at `cur` and at `fresh` only extends the chain, if it does so for the
  -- last block alone.
  extend :
      {h' : Heap A} {cur' fresh : Ptr} {e' : ℕ} {m : A} {extra : List Ptr} {p : Ptr} {i : ℕ}
      {ps : List Ptr} {xs : List A}
      → h null ≡ none
      → h fresh ≡ none
      → ((a : Ptr) → a ≢ cur → a ≢ fresh → h' a ≡ h a)
      → ((a : Ptr) → a ≢ fresh → Apart a extra)
      → ((msgs : ℕ → Option A) (j : ℕ) (ys : List A)
          → h cur ≡ some (block msgs null)
          → Slots msgs j ys
          → j + length ys ≡ e
          → Chain h' cur' e' cur j (cur ∷ extra) (ys ++ m ∷ []))
      → Chain h cur e p i ps xs
      → Chain h' cur' e' p i (ps ++ extra) (xs ++ m ∷ [])
  extend z f same ex tail (last {i} {msgs} {xs} at c s l k) = rw c (tail msgs i xs (rw c at at) s l)
  extend {fresh = fresh} {m = m} {extra = extra} z f same ex tail
        (more {p} {ps} xs {ys} at s k l d r w) =
      let (msgs', here, room) = Chain-current r in
      let other : p ≢ cur = λ q. Chain-start r (ground (arith, q)) in
      let used : p ≢ fresh = λ q. ground (arith, q) in
      more xs (same p other used ∙ at) s k l (Apart-append p ps extra d (ex p used))
        (extend z f same ex tail r) (ap (λ t. t ++ m ∷ []) w ∙ append_assoc xs ys (m ∷ []))

-- a block has one array of slots
Slots-same :
    {A : Type 0} {o : Option (Block A)} {f g : ℕ → Option A} {p q : Ptr}
    → o ≡ some (block f p)
    → o ≡ some (block g q)
    → (j : ℕ) (ys : List A) → Slots g j ys
    → Slots f j ys
Slots-same {f = f} {g} e e' j ys s =
    let same : g ≡ f = ap (λ o. elim o [ none ↦ f | some c ↦ c.msgs ]) (sym e' ∙ e) in
    subst (λ k. Slots k j ys) same s

module _ {A : Type 0} {b : Buffer A} {xs : List A} (fresh : Ptr) (m : A) (v : IsQueue b xs)
    (u : IsFresh b.heap fresh) (msgs : ℕ → Option A)
    (here : b.heap b.current ≡ some (block msgs null)) (room : b.endindex < realloc_size) where
  abbrev stored : ℕ → Option A
  stored = assign msgs b.endindex (some m)

  abbrev in_block : Buffer A
  in_block = record b {
    heap = assign b.heap b.current (some (block stored null));
    endindex = b.endindex + 1;
    semaphore = b.semaphore + 1;
  }

  abbrev in_new_block : Buffer A
  in_new_block = record in_block {
    heap =
        assign (assign in_block.heap fresh (some empty_block)) b.current
          (some (block stored fresh));
    current = fresh;
    endindex = 0;
  }

  in_block-IsQueue : b.endindex + 1 < realloc_size → IsQueue in_block (xs ++ m ∷ [])
  in_block-IsQueue space = record {
    ps = v.ps ++ [];
    chain =
        extend {fresh = fresh} v.null_free u.unused (λ a p q. ground arith) (λ a p. tt)
          (λ msgs' j ys e s l.
            last {msgs = stored} (ground arith) refl
              (Slots-snoc msgs j b.endindex m ys (Slots-same here e j ys s) l)
              (omega (arith, length-append ys (m ∷ []))) space)
          v.chain;
    count = omega (arith, v.count, length-append xs (m ∷ []));
    null_free = ground (arith, v.null_free);
  }

  in_new_block-IsQueue : b.endindex + 1 ≡ realloc_size → IsQueue in_new_block (xs ++ m ∷ [])
  in_new_block-IsQueue full = record {
    ps = v.ps ++ fresh ∷ [];
    chain =
        extend {fresh = fresh} v.null_free u.unused (λ a p q. ground arith)
          (λ a p. (λ q. p (sym q), tt))
          (λ msgs' j ys e s l.
            more {msgs = stored} (ys ++ m ∷ []) (ground arith)
              (Slots-snoc msgs j b.endindex m ys (Slots-same here e j ys s) l) (omega arith)
              (omega (arith, length-append ys (m ∷ []))) (λ q. ground (arith, q, u.unused), tt)
              (last {msgs = λ i. none} (ground (arith, u.unused)) refl tt refl (omega arith))
              (sym (append-nil _)))
          v.chain;
    count = omega (arith, v.count, length-append xs (m ∷ []));
    null_free = ground (arith, v.null_free, u.ne_null);
  }

-- `push` on a buffer that holds `xs` succeeds, where malloc returns an address that is free, and the
-- buffer then holds the message behind them.
pub push-IsQueue :
    {A : Type 0} {b : Buffer A} {xs : List A} (fresh : Ptr) (m : A)
    → IsQueue b xs
    → IsFresh b.heap fresh
    → (b' : Buffer A) × (push fresh b m ≡ some b') × IsQueue b' (xs ++ m ∷ [])
unfolding push
push-IsQueue {A} {b} {xs} fresh m v u =
    let (msgs, here, room) = Chain-current v.chain in
    elim (Bool-cases ((b.endindex + 1) == realloc_size)) [
      | inl full ↦ (
        in_new_block fresh m v u msgs here room,
        ground (arith, here, u.unused),
        in_new_block-IsQueue fresh m v u msgs here room (ground arith),
      )
      | inr space ↦ (
        in_block fresh m v u msgs here room,
        ground (arith, here),
        in_block-IsQueue fresh m v u msgs here room (ground arith),
      )
    ]
