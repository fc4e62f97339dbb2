-- ===== src/Reader/Ends.antt =====
-- The scans of the handlers end, and the queue only grows.
use genbuf.Prelude.{
  subst, ℕ, zero, suc, ◌+◌, ◌≤◌, ◌<◌, ◌≡◌, refl, sym, ap, ◌∙◌, ◌⊎◌, inl, inr, Bool-cases, some,
  List, [], ◌∷◌, ◌++◌, append_assoc, append-nil, arith, length, length-append,
}
use genbuf.InputTools.{Status, status_ok, status_eof, status_unknown}
use genbuf.Reader.{
  Source, Reading, Kind, Reader, Progress, Visit, stays, leaves, is_set, add_sources, by_status,
  remove_handler, on_read, visit, reader_of, Scanned, coped, rerun, scan, progress, ends, scan_all,
}

-- The reads of a kind of source end and add no source, where `inv` holds of the handler, and it holds
-- behind a read that is not the last.
abbrev pub Closed : {S : Type 0} → (S → Type 0) → Kind S → Type 0
Closed {S} inv kind =
    (t : ℕ) (s : S)
    → inv s
    → (r : Reading S) × (kind t s ≡ some r)
      × (r.added ≡ [])
      × (r.status ≡ status_ok → inv r.handler)

-- `inv` of each handler
unfoldable pub All : {S : Type 0} → (S → Type 0) → List (Source S) → Type 0
All inv [] = Unit
All inv (s ∷ rest) = inv s.handler × All inv rest

pub All-append :
    {S : Type 0} (inv : S → Type 0) (xs ys : List (Source S))
    → All inv xs
    → All inv ys
    → All inv (xs ++ ys)
unfolding All
All-append inv [] ys a b = b
All-append inv (x ∷ xs) ys a b = (a.0, All-append inv xs ys a.1 b)

-- The reads from the number `t` to the one before `t'`, each of some handler, and the lines that they
-- gave, in order.
pub data Gave {S : Type 0} (kind : Kind S) : ℕ → ℕ → List (List ℕ) → Type 0 where
  no_read : {t : ℕ} → Gave kind t t []
  read :
      {t t' : ℕ} {more : List (List ℕ)} (s : S) (r : Reading S)
      → kind t s ≡ some r
      → Gave kind (suc t) t' more
      → Gave kind t t' (r.lines ++ more)

Gave-append :
    {S : Type 0} {kind : Kind S} {t t' t2 : ℕ} {lines more : List (List ℕ)}
    → Gave kind t t' lines
    → Gave kind t' t2 more
    → Gave kind t t2 (lines ++ more)
Gave-append no_read g = g
Gave-append {kind = kind} {t} {t2 = t2} {more = more} (read {more = lines} s r e v) g =
    subst (Gave kind t t2) (sym (append_assoc r.lines lines more)) (read s r e (Gave-append v g))

-- What the queue `q'` has behind `q` are the lines of the reads between two numbers.
abbrev pub Queued : {S : Type 0} → Kind S → ℕ → ℕ → List (List ℕ) → List (List ℕ) → Type 0
Queued kind t t' q q' = (lines : List (List ℕ)) × (q' ≡ q ++ lines) × Gave kind t t' lines

module _ {S : Type 0} (inv : S → Type 0) (kind : Kind S) (c : Closed inv kind) where
  Queued-trans :
      {t t' t2 : ℕ} (q q' q2 : List (List ℕ))
      → Queued kind t t' q q'
      → Queued kind t' t2 q' q2
      → Queued kind t t2 q q2
  Queued-trans q q' q2 (lines, e, g) (more, e', g') =
      (lines ++ more, e' ∙ (ap (λ l. l ++ more) e ∙ append_assoc q lines more), Gave-append g g')

  -- the lines reported since, with no source added
  abbrev Reported : Progress S → Progress S → Type 0
  Reported p p' = (p'.added ≡ p.added) × Queued kind p.clock p'.clock p.queue p'.queue

  abbrev Visits : Progress S → Visit S → Type 0
  Visits p v =
      ((s' : Source S) × (p' : Progress S) × (v ≡ stays s' p') × inv s'.handler × Reported p p')
      ⊎ ((p' : Progress S) × (v ≡ leaves p') × Reported p p')

  by_status-Visits :
      (s : Source S) (h : S) (p p' : Progress S) (status : Status)
      → (status ≡ status_ok → inv h)
      → Reported p p'
      → Visits p (by_status s h p' status)
  unfolding by_status remove_handler
  by_status-Visits s h p p' status_ok i v = inl (_, _, refl, i refl, v)
  by_status-Visits s h p p' status_eof i v = inr (_, refl, v)
  by_status-Visits s h p p' status_unknown i v = inr (_, refl, v)

  visit-Visits : (s : Source S) (p : Progress S) → inv s.handler → Visits p (visit kind s p)
  unfolding visit on_read add_sources
  visit-Visits s p i =
      let (r, q, quiet, keeps) = c p.clock s.handler i in
      elim (Bool-cases (is_set s.fd p.fds)) [
        | inl set ↦
            rw (set, visit)
              (rw (q, on_read)
                (rw quiet (
                  by_status-Visits s r.handler p
                    (record p { added = p.added; queue = p.queue ++ r.lines; clock = suc p.clock })
                    r.status keeps
                    (
                      refl,
                      (
                        r.lines ++ [],
                        ap (λ l. p.queue ++ l) (sym (append-nil r.lines)),
                        read s.handler r q no_read,
                      ),
                    ))))
        | inr unset ↦
            rw (unset, visit) (inl (s, p, refl, i, (refl, ([], sym (append-nil p.queue), no_read))))
      ]

  -- a scan from an index on: it copes with all handlers, or one of them has left
  abbrev Scans : (before rest : List (Source S)) → Progress S → Scanned S → Type 0
  Scans before rest p v =
      (r' : Reader S) × All inv r'.sources
      × (((v ≡ coped r') × (length r'.sources ≡ length before + length rest + length p.added))
          ⊎ ((v ≡ rerun r')
              × (suc (length r'.sources) ≡ length before + length rest + length p.added)))
      × Queued kind p.clock r'.clock p.queue r'.queue

  scan-Scans :
      (before rest : List (Source S)) (p : Progress S)
      → All inv before
      → All inv rest
      → All inv p.added
      → Scans before rest p (scan kind before rest p)
  unfolding scan All
  scan-Scans before [] p ib ir ia = (
    reader_of before [] p,
    All-append inv before p.added ib ia,
    inl (refl, omega (arith, length-append before p.added)),
    ([], sym (append-nil p.queue), no_read),
  )
  scan-Scans before (s ∷ rest) p ib ir ia = elim (visit-Visits s p ir.0) [
    | inl (s', p', run, i, (same, first)) ↦
        let (r', all, out, later) =
          scan-Scans (before ++ s' ∷ []) rest p' (All-append inv before (s' ∷ []) ib (i, tt)) ir.1
            (subst (All inv) (sym same) ia) in
        let len = length-append before (s' ∷ []) in
        let join = Queued-trans p.queue p'.queue r'.queue first later in
        elim out [
          | inl (e, n) ↦
              (r', all, inl (rw (run, scan) e, omega (arith, n, len, ap length same)), join)
          | inr (e, n) ↦
              (r', all, inr (rw (run, scan) e, omega (arith, n, len, ap length same)), join)
        ]
    | inr (p', run, (same, reported)) ↦ (
      reader_of before rest p',
      All-append inv before (rest ++ p'.added) ib
          (All-append inv rest p'.added ir.1 (subst (All inv) (sym same) ia)),
      inr (
        rw (run, scan) refl,
        omega (
          arith,
          length-append before (rest ++ p'.added),
          length-append rest p'.added,
          ap length same,
        ),
      ),
      reported,
    )
  ]

  scan_all-rounds :
      (rounds : ℕ) (r : Reader S)
      → All inv r.sources
      → length r.sources < rounds
      → (r' : Reader S) × (scan_all kind rounds r ≡ ends r')
        × All inv r'.sources
        × (length r'.sources ≤ length r.sources)
        × Queued kind r.clock r'.clock r.queue r'.queue
  unfolding scan_all All
  scan_all-rounds zero r i k = absurd (omega arith)
  scan_all-rounds (suc rounds) r i k =
      let (r1, all, out, first) = scan-Scans [] r.sources (progress r) tt i tt in
      elim out [
        | inl (e, n) ↦ (r1, rw (e, scan_all) refl, all, omega (arith, n), first)
        | inr (e, n) ↦
            let (r', run, all', le, later) = scan_all-rounds rounds r1 all (omega (arith, n)) in
            (
              r',
              rw (e, scan_all) run,
              all',
              omega (arith, n, le),
              Queued-trans r.queue r1.queue r'.queue first later,
            )
      ]

-- Where the reads of all sources end and add no source, under an invariant that each read but the last
-- keeps, the scans that begin anew behind each removal come to an end: with more rounds than there are
-- sources, one scan copes with all that are left. The invariant holds of these, they are no more than
-- before, and what the queue has gained are the lines of the reads made, in order.
pub scan_all_lem :
    {S : Type 0} (inv : S → Type 0) (kind : Kind S) (rounds : ℕ) (r : Reader S)
    → Closed inv kind
    → All inv r.sources
    → length r.sources < rounds
    → (r' : Reader S) × (scan_all kind rounds r ≡ ends r')
      × All inv r'.sources
      × (length r'.sources ≤ length r.sources)
      × Queued kind r.clock r'.clock r.queue r'.queue
scan_all_lem inv kind rounds r c i k = scan_all-rounds inv kind c rounds r i k
