-- ===== src/Buffer/Interleave/Safety.antt =====
-- The semaphore never lets the logger into a section without a message, in every order of steps.
use genbuf.Prelude.{
  suc, ◌+◌, ◌≡◌, ◌≢◌, refl, ◌⊎◌, sym, ap, ◌∙◌, subst, true, false, inl, inr, some, List, [], ◌∷◌,
  ◌++◌, append_assoc, arith, length, length-append, some-injective,
}
use genbuf.Buffer.{Ptr, Buffer, pops, init}
use genbuf.Buffer.Chain.{IsQueue, IsFresh, init-IsQueue}
use genbuf.Buffer.Interleave.{
  Logging, idle, taking, returning, System, counted, store, restore, load, Step, stores, posts,
  waits, loads, restores, reposts, begin, Reach, here, next,
}
use genbuf.Buffer.Interleave.Counted.{
  uncounted, Shared, store-IsQueue, restore-IsQueue, load-IsQueue,
}

pops-cong : {A : Type 0} {a b : A} {x y : Buffer A} → pops a x ≡ pops b y → (a ≡ b) × (x ≡ y)
pops-cong e = (cc, cc)

module _ {A : Type 0} (total : List A) where
  stores-Shared :
      (s : System A) (fresh : Ptr) (m : A) (ms : List A) (b : Buffer A)
      → Shared total s
      → s.posting ≡ false
      → s.unpushed ≡ m ∷ ms
      → IsFresh s.buffer.heap fresh
      → store fresh s.buffer m ≡ some b
      → Shared total (record s { buffer = b; unpushed = ms; posting = true })
  stores-Shared s fresh m ms b v p q u e =
      let (b', e', c, v') = store-IsQueue fresh s.buffer m v.held v.holds u in
      let same : b' ≡ b = some-injective _ _ (sym e' ∙ e) in
      record {
        held = v.held ++ m ∷ [];
        holds =
            subst (λ x. IsQueue (counted x (length (v.held ++ m ∷ []))) (v.held ++ m ∷ [])) same v';
        counts =
            omega (
              arith,
              rw p at v.counts,
              c,
              ap (λ x. x.semaphore) same,
              length-append v.held (m ∷ []),
            );
        kept = ap (λ xs. s.popped ++ xs) (append_assoc v.held (m ∷ []) ms) ∙ rw q at v.kept;
      }

  restores-Shared :
      (s : System A) (fresh : Ptr) (m : A) (ms : List A) (b : Buffer A)
      → Shared total s
      → s.logging ≡ idle
      → s.popped ≡ ms ++ m ∷ []
      → IsFresh s.buffer.heap fresh
      → restore fresh s.buffer m ≡ some b
      → Shared total (record s { buffer = b; logging = returning; popped = ms })
  restores-Shared s fresh m ms b v p q u e =
      let (b', e', c, v') = restore-IsQueue fresh s.buffer m v.held v.holds u in
      let same : b' ≡ b = some-injective _ _ (sym e' ∙ e) in
      record {
        held = m ∷ v.held;
        holds = subst (λ x. IsQueue (counted x (suc (length v.held))) (m ∷ v.held)) same v';
        counts = omega (arith, rw p at v.counts, c, ap (λ x. x.semaphore) same);
        kept = sym (append_assoc ms (m ∷ []) (v.held ++ s.unpushed)) ∙ rw q at v.kept;
      }

  -- there is a message where the logger has passed sem_wait
  taking-held :
      (s : System A) (held : List A)
      → s.logging ≡ taking
      → s.buffer.semaphore + uncounted s ≡ length held
      → (x : A) × (xs : List A) × (held ≡ x ∷ xs)
  taking-held s [] p c = absurd (omega (arith, rw p at c))
  taking-held s (x ∷ xs) p c = (x, xs, refl)

  loads-Shared :
      (s : System A) (m : A) (b : Buffer A)
      → Shared total s
      → s.logging ≡ taking
      → load s.buffer ≡ pops m b
      → Shared total (record s { buffer = b; logging = idle; popped = s.popped ++ m ∷ [] })
  loads-Shared s m b v p e =
      let (x, xs, h) = taking-held s v.held p v.counts in
      let (b', e', c, v') = load-IsQueue s.buffer x xs (rw h at v.holds) in
      let (same_m, same) = pops-cong (sym e' ∙ e) in
      record {
        held = xs;
        holds = subst (λ y. IsQueue (counted y (length xs)) xs) same v';
        counts = omega (arith, rw p at v.counts, c, ap (λ y. y.semaphore) same, ap length h);
        kept =
            append_assoc s.popped (m ∷ []) (xs ++ s.unpushed)
            ∙ (ap (λ y. s.popped ++ y ∷ (xs ++ s.unpushed)) (sym same_m) ∙ rw h at v.kept);
      }

  pub Step-Shared : {s t : System A} → Step s t → Shared total s → Shared total t
  Step-Shared (stores s fresh m ms b p q u e) v = stores-Shared s fresh m ms b v p q u e
  Step-Shared (posts s p) v = record {
    held = v.held;
    holds = v.holds;
    counts = omega (arith, rw p at v.counts);
    kept = v.kept;
  }
  Step-Shared (waits s n p e) v = record {
    held = v.held;
    holds = v.holds;
    counts = omega (arith, rw p at v.counts);
    kept = v.kept;
  }
  Step-Shared (loads s m b p e) v = loads-Shared s m b v p e
  Step-Shared (restores s fresh m ms b p q u e) v = restores-Shared s fresh m ms b v p q u e
  Step-Shared (reposts s p) v = record {
    held = v.held;
    holds = v.holds;
    counts = omega (arith, rw p at v.counts);
    kept = v.kept;
  }

  Steps-Shared : {s t : System A} → Shared total s → Reach s t → Shared total t
  Steps-Shared v here = v
  Steps-Shared v (next r s) = Step-Shared s (Steps-Shared v r)

pub begin-Shared :
    {A : Type 0} (fresh : Ptr) (msgs : List A) → fresh ≢ 0 → Shared msgs (begin fresh msgs)
unfolding init
begin-Shared fresh msgs k = record {
  held = [];
  holds = init-IsQueue fresh k;
  counts = refl;
  kept = refl;
}

pub loaded :
    {A : Type 0} (s : System A) (total : List A)
    → Shared total s
    → s.logging ≡ taking
    → (m : A) × (b : Buffer A) × (load s.buffer ≡ pops m b)
loaded s total v p =
    let (x, xs, h) = taking-held total s v.held p v.counts in
    let (b, e, _, _) = load-IsQueue s.buffer x xs (rw h at v.holds) in (x, b, e)

pub Logging-cases : (l : Logging) → (l ≢ taking) ⊎ (l ≡ taking)
Logging-cases idle = inl (ground arith)
Logging-cases taking = inr refl
Logging-cases returning = inl (ground arith)

-- However the steps of the reader's and of the logger's thread follow each other: the messages that
-- were popped, those that the buffer holds and those that are not pushed yet are all messages, in
-- order; the buffer holds as many as the semaphore counts, and one more for each thread that is before
-- its sem_post or behind its sem_wait; and a section of pop finds a message. The condition is that the
-- first block is not NULL.
pub Reach-Shared :
    {A : Type 0} (fresh : Ptr) (msgs : List A) (s : System A)
    → fresh ≢ 0
    → Reach (begin fresh msgs) s
    → (held : List A) × IsQueue (counted s.buffer (length held)) held
      × (s.popped ++ (held ++ s.unpushed) ≡ msgs)
      × (s.buffer.semaphore + uncounted s ≡ length held)
      × ((s.logging ≢ taking) ⊎ ((m : A) × (b : Buffer A) × (load s.buffer ≡ pops m b)))
Reach-Shared fresh msgs s k r =
    let v = Steps-Shared msgs (begin-Shared fresh msgs k) r in
    (
      v.held,
      v.holds,
      v.kept,
      v.counts,
      elim (Logging-cases s.logging) [ inl no_pop ↦ inl no_pop | inr p ↦ inr (loaded s msgs v p) ],
    )
