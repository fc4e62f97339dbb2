-- ===== src/Buffer/Cleanup.antt =====
-- `buffer_cleanup`: which blocks and which messages it frees.
use genbuf.Prelude.{
  ℕ, zero, suc, ◌+◌, ◌-◌, ◌<◌, ◌≡◌, refl, sym, ap, ◌∙◌, Option, none, some, List, [], ◌∷◌, ◌++◌,
  append-nil, arith, length, ◌==◌, if◌then◌else◌, Bool-cases, inl, inr, take, take-append_left,
  take_all, false,
}
use genbuf.Buffer.{
  Ptr, null, realloc_size, assign, Block, block, Heap, Buffer, free_msgs, cleanup_loop, cleanup,
}
use genbuf.Buffer.Chain.{Slots, Chain, last, more, IsQueue, Chain-frame, Chain-start}

module _ {A : Type 0} where
  -- the heap without these blocks
  pub without : List Ptr → Heap A → Heap A
  without [] h = h
  without (p ∷ ps) h = without ps (assign h p none)

  free_msgs_lem :
      (msgs : ℕ → Option A) (i : ℕ) (xs : List A)
      → Slots msgs i xs
      → free_msgs msgs i (length xs) ≡ some xs
  unfolding free_msgs
  free_msgs_lem msgs i [] s = refl
  free_msgs_lem msgs i (x ∷ xs) s = ground (arith, free_msgs_lem msgs (i + 1) xs s.1)

  start_ne_null :
      {h : Heap A} {cur : Ptr} {e : ℕ} {p : Ptr} {i : ℕ} {ps : List Ptr} {xs : List A}
      → Chain h cur e p i ps xs
      → h null ≡ none
      → (p == null) ≡ false
  start_ne_null {p = p} c z = elim (Bool-cases (p == null)) [
    | inl e ↦ let q : p ≡ null = ground arith in absurd (Chain-start c (rw q z))
    | inr e ↦ e
  ]

  cleanup_round :
      (rounds e : ℕ) (h h' : Heap A) (p i : ℕ) (c : Block A) (ms later : List A)
      → (p == null) ≡ false
      → h p ≡ some c
      → free_msgs c.msgs i ((if c.next == null then e else realloc_size) - i) ≡ some ms
      → cleanup_loop rounds e (assign h p none) c.next realloc_size ≡ some (later, h')
      → cleanup_loop (suc rounds) e h p i ≡ some (ms ++ later, h')
  unfolding cleanup_loop
  cleanup_round rounds e h h' p i c ms later np at freed rest =
      rw (np, cleanup_loop)
        (rw (at, cleanup_loop) (rw (freed, cleanup_loop) (rw (rest, cleanup_loop))))

  cleanup_end :
      (rounds e : ℕ) (h : Heap A) (i : ℕ) → cleanup_loop (suc rounds) e h null i ≡ some ([], h)
  unfolding cleanup_loop
  cleanup_end rounds e h i = refl

  no_msgs : (msgs : ℕ → Option A) (i : ℕ) {n : ℕ} → n ≡ 0 → free_msgs msgs i n ≡ some []
  unfolding free_msgs
  no_msgs msgs i e = rw e

  -- the blocks behind the head block: no message of theirs is freed
  cleanup_later :
      (rounds : ℕ) {h : Heap A} {cur : Ptr} {e p i : ℕ} {ps : List Ptr} {xs : List A}
      → Chain h cur e p i ps xs
      → h null ≡ none
      → (p == null) ≡ false
      → length ps < rounds
      → cleanup_loop rounds e h p realloc_size ≡ some ([], without ps h)
  unfolding without
  cleanup_later zero c z np k = absurd (omega arith)
  cleanup_later (suc zero) (last at c s l r) z np k = absurd (omega arith)
  cleanup_later (suc zero) (more xs at s j l d r u) z np k = absurd (omega arith)
  cleanup_later (suc (suc rounds)) {h} {e = e} (last {p} {msgs = msgs} at c s l r) z np k =
      cleanup_round (suc rounds) e h _ p realloc_size (block msgs null) [] [] np at
        (no_msgs msgs realloc_size (omega arith))
        (cleanup_end rounds e (assign h p none) realloc_size)
  cleanup_later (suc (suc rounds)) {h} {e = e} (more {p} {q} {i} {msgs} {ps} xs at s j l d r u) z np
        k =
      let rest = Chain-frame p none r d in
      let z' : assign h p none null ≡ none = ground arith in
      let np' = start_ne_null rest z' in
      cleanup_round (suc rounds) e h _ p realloc_size (block msgs q) [] [] np at
        (rw np' (no_msgs msgs realloc_size (omega arith)))
        (cleanup_later (suc rounds) rest z' np' (omega arith))

  cleanup_head :
      (rounds : ℕ) {h : Heap A} {cur : Ptr} {e p i : ℕ} {ps : List Ptr} {xs : List A}
      → Chain h cur e p i ps xs
      → h null ≡ none
      → (p == null) ≡ false
      → length ps < rounds
      → cleanup_loop rounds e h p i ≡ some (take (realloc_size - i) xs, without ps h)
  unfolding without
  cleanup_head zero c z np k = absurd (omega arith)
  cleanup_head (suc zero) (last at c s l r) z np k = absurd (omega arith)
  cleanup_head (suc zero) (more xs at s j l d r u) z np k = absurd (omega arith)
  cleanup_head (suc (suc rounds)) {h} {e = e} (last {p} {i} {msgs} {xs} at c s l r) z np k =
      let n : e - i ≡ length xs = omega arith in
      cleanup_round (suc rounds) e h _ p i (block msgs null) xs [] np at
        (rw n (free_msgs_lem msgs i xs s)) (cleanup_end rounds e (assign h p none) realloc_size)
      ∙ ap (λ t. some (t, assign h p none))
          (append-nil xs ∙ sym (take_all (realloc_size - i) xs (omega arith)))
  cleanup_head (suc (suc rounds)) {h} {e = e} (more {p} {q} {i} {msgs} {ps} xs {ys} at s j l d r u)
        z np k =
      let rest = Chain-frame p none r d in
      let z' : assign h p none null ≡ none = ground arith in
      let np' = start_ne_null rest z' in
      let n : realloc_size - i ≡ length xs = omega arith in
      let first : take (realloc_size - i) (xs ++ ys) ≡ xs = rw n (take-append_left xs ys) in
      cleanup_round (suc rounds) e h _ p i (block msgs q) xs [] np at
        (rw (np', n) (free_msgs_lem msgs i xs s))
        (cleanup_later (suc rounds) rest z' np' (omega arith))
      ∙ ap (λ t. some (t, without ps (assign h p none)))
          (append-nil xs ∙ sym first ∙ ap (take (realloc_size - i)) (sym u))

  -- With more rounds than blocks `cleanup` ends, and frees every block and nothing else of the heap; of
  -- the messages that the buffer still holds it frees those of the head block alone.
  pub cleanup_lem :
      (rounds : ℕ) {b : Buffer A} {xs : List A} (v : IsQueue b xs)
      → length v.ps < rounds
      → cleanup rounds b ≡ some (take (realloc_size - b.headindex) xs, without v.ps b.heap)
  unfolding cleanup
  cleanup_lem rounds v k =
      cleanup_head rounds v.chain v.null_free (start_ne_null v.chain v.null_free) k

  one_block :
      {h : Heap A} {cur : Ptr} {e : ℕ} {p : Ptr} {i : ℕ} {ps : List Ptr}
      → Chain h cur e p i ps []
      → ps ≡ p ∷ []
  one_block (last at c s l k) = refl
  one_block (more [] at s k l d r u) = absurd (omega arith)
  one_block (more (x ∷ xs) at s k l d r u) = absurd (ground arith)

  -- Where no message is left there is one block, and it is freed, whatever the semaphore counts.
  pub cleanup-empty :
      (b : Buffer A) (n : ℕ)
      → IsQueue (record b { semaphore = n }) []
      → cleanup 2 b ≡ some ([], assign b.heap b.head none)
  unfolding without cleanup
  cleanup-empty b n v =
      let one = one_block v.chain in
      cleanup_lem 2 v (rw one (omega arith))
      ∙ rw (one, take_all {A = A} (realloc_size - b.headindex) [] (omega arith)) refl
