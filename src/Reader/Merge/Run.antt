-- ===== src/Reader/Merge/Run.antt =====
-- The loop of the reader over sources that have lines left, until the last of them is at its end.
use genbuf.Prelude.{
  ℕ, suc, zero, ◌+◌, ◌<◌, ◌≤◌, ◌≡◌, refl, sym, ap, ◌∙◌, inl, inr, subst, Bool, true, false, ◌||◌,
  List, [], ◌∷◌, ◌++◌, append_assoc, append-nil, arith, if◌then◌else◌, List-cases,
}
use genbuf.Reader.{
  Source, Kind, Kernel, Reader, readable, rerun, scan, progress, ends, scan_all, all_fds, run,
  is_set,
}
use genbuf.Reader.Merge.{Merge, finished, Yields, Pends, load, any_set}
use genbuf.Reader.Merge.Scan.{Scans, scan-Scans}

-- some of the descriptors are ready
unfoldable pub any_ready : List ℕ → List ℕ → Bool
any_ready [] ready = false
any_ready (fd ∷ fds) ready = is_set fd ready || any_ready fds ready

-- select() does not fail, and reports one of the descriptors at least
abbrev pub Wakes : Kernel → Type 0
Wakes kernel =
    (t fd : ℕ) (fds : List ℕ)
    → (ready : List ℕ) × (kernel.select t (fd ∷ fds) ≡ readable ready)
      × (any_ready (fd ∷ fds) ready ≡ true)

any_ready-set :
    {S : Type 0} (sources : List (Source S)) (ready : List ℕ)
    → any_ready (all_fds sources) ready ≡ any_set sources ready
unfolding any_ready all_fds any_set
any_ready-set [] ready = refl
any_ready-set (s ∷ rest) ready = ap (λ b. is_set s.fd ready || b) (any_ready-set rest ready)

select_lem :
    {S : Type 0} (kernel : Kernel)
    → Wakes kernel
    → (r : Reader S) (s : Source S) (rest : List (Source S)) → r.sources ≡ s ∷ rest
    → (ready : List ℕ) × (kernel.select r.clock (all_fds r.sources) ≡ readable ready)
      × (any_set r.sources ready ≡ true)
unfolding all_fds
select_lem kernel wakes r s rest e =
    let (ready, sel, any) = wakes r.clock s.fd (all_fds rest) in
    (
      ready,
      ap (λ xs. kernel.select r.clock (all_fds xs)) e ∙ sel,
      ap (λ xs. any_set xs ready) e ∙ (sym (any_ready-set (s ∷ rest) ready) ∙ any),
    )

module _ {S : Type 0} (pend : S → List (List ℕ) → Type 0) (size : S → ℕ) (kind : Kind S)
    (y : Yields pend size kind) where
  -- What the scans between two calls of select() leave. `gain` is 1 where a source has been read.
  record Rounds (total gain : ℕ) (rounds : ℕ) (ls : List (List (List ℕ))) (r : Reader S)
      : Type 0 where
    reader : Reader S
    lines : List (List ℕ)
    left : List (List (List ℕ))
    scanned : scan_all kind rounds r ≡ ends reader
    less : load size reader.sources + gain ≤ total
    queued : reader.queue ≡ r.queue ++ lines
    pends : Pends pend reader.sources left
    merges : (more : List (List ℕ)) → Merge left more → Merge ls (lines ++ more)

  abbrev gain_of : Bool → ℕ
  gain_of b = if b then 1 else 0

  rerun-Rounds :
      (total rounds gain : ℕ) (ls : List (List (List ℕ))) (r : Reader S)
      → gain ≤ 1
      → (v : Scans pend size kind y total gain ls r.queue (scan kind [] r.sources (progress r)))
      → scan kind [] r.sources (progress r) ≡ rerun v.reader
      → load size v.reader.sources < total
      → Rounds (load size v.reader.sources) 0 rounds v.left v.reader
      → Rounds total gain (suc rounds) ls r
  unfolding scan_all
  rerun-Rounds total rounds gain ls r g v e k w = record {
    reader = w.reader;
    lines = v.lines ++ w.lines;
    left = w.left;
    scanned = rw (e, scan_all) w.scanned;
    less = omega (arith, w.less);
    queued = w.queued ∙ (ap (λ xs. xs ++ w.lines) v.queued ∙ append_assoc r.queue v.lines w.lines);
    pends = w.pends;
    merges = λ out m.
        subst (Merge ls) (sym (append_assoc v.lines w.lines out))
          (v.merges (w.lines ++ out) (w.merges out m));
  }

  weaken :
      {total gain rounds : ℕ} {ls : List (List (List ℕ))} {r : Reader S}
      → Rounds total gain rounds ls r
      → Rounds total 0 rounds ls r
  weaken w = record {
    reader = w.reader;
    lines = w.lines;
    left = w.left;
    scanned = w.scanned;
    less = omega (arith, w.less);
    queued = w.queued;
    pends = w.pends;
    merges = w.merges;
  }

  scan_all-Rounds :
      (rounds : ℕ) (r : Reader S) (ls : List (List (List ℕ)))
      → Pends pend r.sources ls
      → load size r.sources < rounds
      → Rounds (load size r.sources) (gain_of (any_set r.sources r.fds)) rounds ls r
  unfolding scan_all
  scan_all-Rounds zero r ls v k = absurd (omega arith)
  scan_all-Rounds (suc rounds) r ls v k =
      let w = scan-Scans pend size kind y r ls v in
      elim w.scanned [
        | inl e ↦ record {
          reader = w.reader;
          lines = w.lines;
          left = w.left;
          scanned = rw (e, scan_all) refl;
          less = w.less;
          queued = w.queued;
          pends = w.pends;
          merges = w.merges;
        }
        | inr (e, less) ↦
            rerun-Rounds (load size r.sources) rounds (gain_of (any_set r.sources r.fds)) ls r
              (ground arith) w e less
              (weaken (scan_all-Rounds rounds w.reader w.left w.pends (omega arith)))
      ]

  -- what the run comes to
  abbrev Runs : Kernel → ℕ → List (List (List ℕ)) → Reader S → Type 0
  Runs kernel rounds ls r =
      (r' : Reader S) × (lines : List (List ℕ)) × (run kernel kind rounds r ≡ ends r')
      × (r'.sources ≡ [])
      × (r'.queue ≡ r.queue ++ lines)
      × Merge ls lines

  Pends-none : (ls : List (List (List ℕ))) → Pends pend [] ls → ls ≡ []
  unfolding Pends
  Pends-none [] v = refl
  Pends-none (l ∷ ls) v = absurd v

  -- no source is left
  run_ends :
      (kernel : Kernel) (rounds total gain : ℕ) (r : Reader S) (ls : List (List (List ℕ)))
      (w : Rounds total gain rounds ls r)
      → w.reader.sources ≡ []
      → Runs kernel (suc rounds) ls r
  unfolding run
  run_ends kernel rounds total gain r ls w e =
      let over : w.left ≡ [] = Pends-none w.left (subst (λ xs. Pends pend xs w.left) e w.pends) in
      (
        record w.reader { sources = []; fds = [] },
        w.lines,
        rw (w.scanned, run) (rw e (ap (λ xs. ends (record w.reader { sources = xs; fds = [] })) e)),
        refl,
        w.queued,
        subst (Merge ls) (append-nil w.lines)
            (w.merges [] (subst (λ xs. Merge xs []) (sym over) finished)),
      )

  -- select() reports one of the sources that are left
  run_goes_on :
      (kernel : Kernel) (rounds total gain : ℕ) (r : Reader S) (ls : List (List (List ℕ)))
      (w : Rounds total gain rounds ls r) (s : Source S) (rest : List (Source S)) (ready : List ℕ)
      → w.reader.sources ≡ s ∷ rest
      → kernel.select w.reader.clock (all_fds w.reader.sources) ≡ readable ready
      → Runs kernel rounds w.left (record w.reader { fds = ready; clock = suc w.reader.clock })
      → Runs kernel (suc rounds) ls r
  unfolding run
  run_goes_on kernel rounds total gain r ls w s rest ready e sel (r', lines, ran, over, q, m) = (
    r',
    w.lines ++ lines,
    rw (w.scanned, run) (rw e (rw sel ran)),
    over,
    q ∙ (ap (λ xs. xs ++ lines) w.queued ∙ append_assoc r.queue w.lines lines),
    w.merges lines m,
  )

  pub run-Runs :
      (kernel : Kernel) (rounds : ℕ) (r : Reader S) (ls : List (List (List ℕ)))
      → Wakes kernel
      → Pends pend r.sources ls
      → load size r.sources + (if any_set r.sources r.fds then 1 else 2) < rounds
      → Runs kernel rounds ls r
  run-Runs kernel zero r ls wakes v k = absurd (omega arith)
  run-Runs kernel (suc rounds) r ls wakes v k =
      let w = scan_all-Rounds rounds r ls v (ground arith) in
      elim (List-cases w.reader.sources) [
        | inl e ↦ run_ends kernel rounds _ _ r ls w e
        | inr (s, rest, e) ↦
            let (ready, sel, any) = select_lem kernel wakes w.reader s rest e in
            run_goes_on kernel rounds _ _ r ls w s rest ready e sel (
              run-Runs kernel rounds (record w.reader { fds = ready; clock = suc w.reader.clock })
                w.left wakes w.pends (rw any (ground (arith, w.less))))
      ]
