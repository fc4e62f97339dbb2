-- ===== src/Buffer/Chain.antt =====
-- What a chain of blocks stands for: its messages, oldest first.
use genbuf.Prelude.{
  ℕ, ◌+◌, ◌<◌, ◌≡◌, ◌≢◌, refl, Option, none, some, List, [], ◌∷◌, ◌++◌, arith, length,
}
use genbuf.Buffer.{Ptr, null, realloc_size, assign, Block, block, Heap, Buffer, init}

-- `p` is none of the addresses
abbrev pub Apart : Ptr → List Ptr → Type 0
Apart p [] = Unit {0}
Apart p (q ∷ qs) = (q ≢ p) × Apart p qs

pub Apart-append : (p : Ptr) (ps qs : List Ptr) → Apart p ps → Apart p qs → Apart p (ps ++ qs)
Apart-append p [] qs a b = b
Apart-append p (x ∷ ps) qs a b = (a.0, Apart-append p ps qs a.1 b)

module _ {A : Type 0} where
  -- the slots from `i` on hold these messages
  abbrev pub Slots : (ℕ → Option A) → ℕ → List A → Type 0
  Slots msgs i [] = Unit {0}
  Slots msgs i (x ∷ xs) = (msgs i ≡ some x) × Slots msgs (i + 1) xs

-- From slot `i` of block `p` the blocks `ps`, all distinct, lead to slot `e` of the last block, which
-- is `cur`; every block but the last is full to its end.
pub data Chain {A : Type 0} (h : Heap A) (cur : Ptr) (e : ℕ)
    : Ptr → ℕ → List Ptr → List A → Type 0 where
  last :
      {p : Ptr} {i : ℕ} {msgs : ℕ → Option A} {xs : List A}
      → h p ≡ some (block msgs null)
      → p ≡ cur
      → Slots msgs i xs
      → i + length xs ≡ e
      → e < realloc_size
      → Chain h cur e p i (p ∷ []) xs
  more :
      {p q : Ptr} {i : ℕ} {msgs : ℕ → Option A} {ps : List Ptr} (xs : List A) {ys zs : List A}
      → h p ≡ some (block msgs q)
      → Slots msgs i xs
      → i < realloc_size
      → i + length xs ≡ realloc_size
      → Apart p ps
      → Chain h cur e q 0 ps ys
      → zs ≡ xs ++ ys
      → Chain h cur e p i (p ∷ ps) zs

-- The buffer holds these messages, oldest first.
pub record IsQueue {A : Type 0} (b : Buffer A) (xs : List A) : Type 0 where
  pub ps : List Ptr
  pub chain : Chain b.heap b.current b.endindex b.head b.headindex ps xs
  pub count : b.semaphore ≡ length xs
  pub null_free : b.heap null ≡ none

-- what malloc returns
pub record IsFresh {A : Type 0} (h : Heap A) (p : Ptr) : Type 0 where
  pub ne_null : p ≢ null
  pub unused : h p ≡ none

module _ {A : Type 0} {h : Heap A} {cur : Ptr} {e : ℕ} where
  -- the first block is allocated
  pub Chain-start :
      {p : Ptr} {i : ℕ} {ps : List Ptr} {xs : List A} → Chain h cur e p i ps xs → h p ≢ none
  Chain-start (last at c s l k) = λ q. cc
  Chain-start (more xs at s k l a r w) = λ q. cc

  -- an address that is not allocated is none of the blocks
  pub Chain-Apart :
      {p : Ptr} {i : ℕ} {ps : List Ptr} {xs : List A} (a : Ptr)
      → Chain h cur e p i ps xs
      → h a ≡ none
      → Apart a ps
  Chain-Apart a (last {p} at c s l k) n = (λ q. ground (arith, q), tt)
  Chain-Apart a (more {p} xs at s k l d r w) n = (λ q. ground (arith, q), Chain-Apart a r n)

  -- a change of the heap that spares the blocks
  pub Chain-frame :
      {p : Ptr} {i : ℕ} {ps : List Ptr} {xs : List A} (a : Ptr) (v : Option (Block A))
      → Chain h cur e p i ps xs
      → Apart a ps
      → Chain (assign h a v) cur e p i ps xs
  Chain-frame a v (last {p} at c s l k) d = last (ground (arith, d.0)) c s l k
  Chain-frame a v (more {p} xs at s k l d' r w) d =
      more xs (ground (arith, d.0)) s k l d' (Chain-frame a v r d.1) w

module _ {A : Type 0} where
  -- writes at other slots
  pub Slots-assign_before :
      (msgs : ℕ → Option A) (i j : ℕ) (v : Option A) (xs : List A)
      → Slots msgs i xs
      → j < i
      → Slots (assign msgs j v) i xs
  Slots-assign_before msgs i j v [] s k = tt
  Slots-assign_before msgs i j v (x ∷ xs) s k =
      (ground (arith, s.0), Slots-assign_before msgs (i + 1) j v xs s.1 (omega arith))

  -- a write behind the last
  pub Slots-snoc :
      (msgs : ℕ → Option A) (i j : ℕ) (m : A) (xs : List A)
      → Slots msgs i xs
      → i + length xs ≡ j
      → Slots (assign msgs j (some m)) i (xs ++ m ∷ [])
  Slots-snoc msgs i j m [] s k = (ground arith, tt)
  Slots-snoc msgs i j m (x ∷ xs) s k =
      (ground (arith, s.0), Slots-snoc msgs (i + 1) j m xs s.1 (omega arith))

  -- A new buffer is empty.
  pub init-IsQueue : (fresh : Ptr) → fresh ≢ null → IsQueue (init {A = A} fresh) []
  unfolding init
  init-IsQueue fresh k = record {
    ps = fresh ∷ [];
    chain = last {msgs = λ i. none} (ground arith) refl tt refl (omega arith);
    count = refl;
    null_free = ground arith;
  }
