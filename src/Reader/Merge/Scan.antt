-- ===== src/Reader/Merge/Scan.antt =====
-- A scan of sources that have lines left, and the scans behind each removal.
use genbuf.Prelude.{
  ℕ, suc, ◌+◌, ◌<◌, ◌≤◌, ◌≡◌, refl, sym, ap, ◌∙◌, ◌⊎◌, inl, inr, subst, Bool, false, List, [], ◌∷◌,
  ◌++◌, append_assoc, append-nil, arith, if◌then◌else◌, Bool-cases,
}
use genbuf.Reader.{
  Source, Kind, Reader, Progress, Visit, stays, leaves, is_set, clear, add_sources, by_status,
  on_read, visit, remove_handler, reader_of, Scanned, coped, rerun, scan, progress,
}
use genbuf.Reader.Merge.{
  Merge, skip, Merge-append, Yields, Pends, load, any_set, Pends-append, load-append,
}

module _ {S : Type 0} (pend : S → List (List ℕ) → Type 0) (size : S → ℕ) (kind : Kind S)
    (y : Yields pend size kind) where
  -- a visit of a source with these lines left
  abbrev Visits : Source S → List (List ℕ) → Progress S → Visit S → Type 0
  Visits s l p v =
      ((v ≡ stays s p) × (is_set s.fd p.fds ≡ false))
      ⊎ (((h : S) × (lines : List (List ℕ)) × (more : List (List ℕ)) × (v
              ≡ stays (record s { handler = h })
                  (record p { queue = p.queue ++ lines; clock = suc p.clock }))
            × pend h more
            × (l ≡ lines ++ more)
            × (size h < size s.handler))
          ⊎ ((h : S) × (v
                ≡ leaves (record p {
                  fds = clear s.fd p.fds;
                  queue = p.queue ++ [];
                  clock = suc p.clock;
                  cleaned = p.cleaned ++ record s { handler = h } ∷ [];
                }))
              × (l ≡ [])))

  visit-Visits :
      (s : Source S) (l : List (List ℕ)) (p : Progress S)
      → p.added ≡ []
      → pend s.handler l
      → Visits s l p (visit kind s p)
  unfolding visit on_read add_sources by_status remove_handler
  visit-Visits s l p a i =
      let (r, q, quiet, out) = y p.clock s.handler l i in
      elim (Bool-cases (is_set s.fd p.fds)) [
        | inr unset ↦ inl (rw (unset, visit) refl, unset)
        | inl set ↦ elim out [
          | inl (ok, (more, left, cut, less)) ↦ inr (
              inl (
                r.handler,
                r.lines,
                more,
                rw (set, visit) (rw (q, on_read) (rw quiet (rw ok refl))),
                left,
                cut,
                less,
              ))
          | inr (eof, none_left, over) ↦ inr (
              inr (
                r.handler,
                rw (set, visit) (rw (q, on_read) (rw quiet (rw (eof, none_left) refl))),
                over,
              ))
        ]
      ]

  -- What a scan leaves of sources of a load and with these lines left: the lines that it queued go
  -- before any merge of the lines that are then left.
  pub record Scans (total : ℕ) (gain : ℕ) (ls : List (List (List ℕ))) (queue : List (List ℕ))
      (out : Scanned S) : Type 0 where
    pub reader : Reader S
    pub lines : List (List ℕ)
    pub left : List (List (List ℕ))
    pub scanned : (out ≡ coped reader) ⊎ ((out ≡ rerun reader) × (load size reader.sources < total))
    pub less : load size reader.sources + gain ≤ total
    pub queued : reader.queue ≡ queue ++ lines
    pub pends : Pends pend reader.sources left
    pub merges : (more : List (List ℕ)) → Merge left more → Merge ls (lines ++ more)

  abbrev gain_of : Bool → ℕ
  gain_of b = if b then 1 else 0

  abbrev Scan : List (Source S) → List (Source S) → List (List (List ℕ)) → Progress S → Type 0
  Scan before rest ls p =
      Scans (load size before + load size rest) (gain_of (any_set rest p.fds)) ls p.queue
        (scan kind before rest p)

  Scan-none :
      (before : List (Source S)) (ls : List (List (List ℕ))) (p : Progress S)
      → Pends pend before ls
      → p.added ≡ []
      → Scan before [] ls p
  unfolding scan any_set load
  Scan-none before ls p v a = record {
    reader = reader_of before [] p;
    lines = [];
    left = ls;
    scanned = inl refl;
    less = rw (a, append-nil before) (omega arith);
    queued = sym (append-nil p.queue);
    pends = rw (a, append-nil before) v;
    merges = λ more w. w;
  }

  -- a source whose descriptor is not set
  Scan-unset :
      (before rest : List (Source S)) (s : Source S) (ls : List (List (List ℕ))) (p : Progress S)
      → visit kind s p ≡ stays s p
      → is_set s.fd p.fds ≡ false
      → Scan (before ++ s ∷ []) rest ls p
      → Scan before (s ∷ rest) ls p
  unfolding scan any_set load
  Scan-unset before rest s ls p run unset v =
      let len = load-append size before (s ∷ []) in
      record {
        reader = v.reader;
        lines = v.lines;
        left = v.left;
        scanned = elim v.scanned [
          | inl e ↦ inl (rw (run, scan) e)
          | inr (e, k) ↦ inr (rw (run, scan) e, omega (arith, len))
        ];
        less = rw unset (omega (arith, len, v.less));
        queued = v.queued;
        pends = v.pends;
        merges = v.merges;
      }

  -- a source that reports lines
  Scan-read :
      (before rest : List (Source S)) (s s' : Source S) (ls ls' : List (List (List ℕ)))
      (lines more : List (List ℕ)) (p p' : Progress S)
      → visit kind s p ≡ stays s' p'
      → p'.queue ≡ p.queue ++ lines
      → size s'.handler < size s.handler
      → Scan (before ++ s' ∷ []) rest (ls ++ more ∷ ls') p'
      → Scan before (s ∷ rest) (ls ++ (lines ++ more) ∷ ls') p
  unfolding scan any_set load
  Scan-read before rest s s' ls ls' lines more p p' run q k v =
      let len = load-append size before (s' ∷ []) in
      record {
        reader = v.reader;
        lines = lines ++ v.lines;
        left = v.left;
        scanned = elim v.scanned [
          | inl e ↦ inl (rw (run, scan) e)
          | inr (e, less) ↦ inr (rw (run, scan) e, omega (arith, len))
        ];
        less = ground (arith, len, v.less);
        queued = v.queued ∙ (ap (λ xs. xs ++ v.lines) q ∙ append_assoc p.queue lines v.lines);
        pends = v.pends;
        merges = λ out w.
            subst (Merge (ls ++ (lines ++ more) ∷ ls')) (sym (append_assoc lines v.lines out))
              (Merge-append ls ls' lines more (v.lines ++ out) (v.merges out w));
      }

  -- a source at its end
  Scan-end :
      (before rest : List (Source S)) (s : Source S) (ls ls' : List (List (List ℕ)))
      (p p' : Progress S)
      → visit kind s p ≡ leaves p'
      → p'.queue ≡ p.queue ++ []
      → p'.added ≡ []
      → Pends pend before ls
      → Pends pend rest ls'
      → Scan before (s ∷ rest) (ls ++ [] ∷ ls') p
  unfolding scan any_set load
  Scan-end before rest s ls ls' p p' run q a v w =
      let same : rest ++ p'.added ≡ rest = ap (λ xs. rest ++ xs) a ∙ append-nil rest in
      let len : load size (before ++ (rest ++ p'.added)) ≡ load size before + load size rest =
        ap (λ xs. load size (before ++ xs)) same ∙ load-append size before rest in
      record {
        reader = reader_of before rest p';
        lines = [];
        left = ls ++ ls';
        scanned = inr (rw (run, scan) refl, omega (arith, len));
        less = ground (arith, len);
        queued = q;
        pends =
            subst (λ xs. Pends pend (before ++ xs) (ls ++ ls')) (sym same)
              (Pends-append pend before rest ls ls' v w);
        merges = λ out u. skip ls ls' out u;
      }

  pub scan_lem :
      (before rest : List (Source S)) (ls ls' : List (List (List ℕ))) (p : Progress S)
      → Pends pend before ls
      → Pends pend rest ls'
      → p.added ≡ []
      → Scan before rest (ls ++ ls') p
  unfolding Pends
  scan_lem before [] ls [] p v w a = rw (append-nil ls) (Scan-none before ls p v a)
  scan_lem before [] ls (l ∷ ls') p v w a = absurd w
  scan_lem before (s ∷ rest) ls [] p v w a = absurd w
  scan_lem before (s ∷ rest) ls (l ∷ ls') p v (i, w) a = elim (visit-Visits s l p a i) [
    | inl (run, unset) ↦ Scan-unset before rest s (ls ++ l ∷ ls') p run unset (
        subst (λ xs. Scan (before ++ s ∷ []) rest xs p) (append_assoc ls (l ∷ []) ls')
          (scan_lem (before ++ s ∷ []) rest (ls ++ l ∷ []) ls' p
            (Pends-append pend before (s ∷ []) ls (l ∷ []) v (i, tt)) w a))
    | inr (inl (h, lines, more, run, left, cut, k)) ↦
        let s' = record s { handler = h } in
        let p' = record p { queue = p.queue ++ lines; clock = suc p.clock } in
        subst (λ x. Scan before (s ∷ rest) (ls ++ x ∷ ls') p) (sym cut)
          (Scan-read before rest s s' ls ls' lines more p p' run refl k (
            subst (λ xs. Scan (before ++ s' ∷ []) rest xs p') (append_assoc ls (more ∷ []) ls')
              (scan_lem (before ++ s' ∷ []) rest (ls ++ more ∷ []) ls' p'
                (Pends-append pend before (s' ∷ []) ls (more ∷ []) v (left, tt)) w a)))
    | inr (inr (h, run, over)) ↦
        subst (λ x. Scan before (s ∷ rest) (ls ++ x ∷ ls') p) (sym over)
          (Scan-end before rest s ls ls' p _ run refl a v w)
  ]

  -- a scan from the first source on
  pub scan-Scans :
      (r : Reader S) (ls : List (List (List ℕ)))
      → Pends pend r.sources ls
      → Scans
          (load size r.sources)
          (if any_set r.sources r.fds then 1 else 0)
          ls
          r.queue
          (scan kind [] r.sources (progress r))
  unfolding Pends load
  scan-Scans r ls v =
      let none_before : 0 + load size r.sources ≡ load size r.sources = omega arith in
      subst
        (λ n.
          Scans n (if any_set r.sources r.fds then 1 else 0) ls r.queue
            (scan kind [] r.sources (progress r)))
        none_before (scan_lem [] r.sources [] ls (progress r) tt v refl)
