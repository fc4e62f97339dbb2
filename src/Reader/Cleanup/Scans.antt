-- ===== src/Reader/Cleanup/Scans.antt =====
-- The handlers that remove_handler cleans up in the scans of reader_run.
use genbuf.Prelude.{
  ℕ, zero, suc, ◌≡◌, ◌⊎◌, refl, sym, ap, inl, inr, subst, Bool-cases, Option-cases, some, List, [],
  ◌∷◌, ◌++◌, append-nil,
}
use genbuf.InputTools.{Status, status_ok, status_eof, status_unknown}
use genbuf.Reader.{
  Source, Reading, Kind, Reader, Progress, Visit, stays, leaves, dies, Scanned, coped, rerun,
  scan_aborts, Ended, ends, ends_on_error, aborted, out_of_fuel, is_set, add_sources,
  remove_handler, by_status, on_read, visit, scan, progress, scan_all, run,
}

-- The reads add no source.
abbrev pub AddsNone : {S : Type 0} → Kind S → Type 0
AddsNone {S} kind = (t : ℕ) (s : S) (r : Reading S) → kind t s ≡ some r → r.added ≡ []

-- a source, or what a read makes of it
abbrev pub Becomes : {S : Type 0} → Kind S → Source S → Source S → Type 0
Becomes {S} kind s s' =
    (s' ≡ s)
    ⊎ ((t : ℕ) × (r : Reading S) × (kind t s.handler ≡ some r)
        × (s' ≡ record s { handler = r.handler }))

-- What is kept of the sources that are cleaned up and of those that are left, where a source is read
-- and where it goes from these to those.
pub record IsKept {S : Type 0} (kind : Kind S) (keeps : List (Source S) → List (Source S) → Type 0)
    : Type 0 where
  pub moves :
      (gone before rest : List (Source S)) (s s' : Source S)
      → Becomes kind s s'
      → keeps gone (before ++ s ∷ rest)
      → keeps (gone ++ s' ∷ []) (before ++ rest)
  pub reads :
      (gone before rest : List (Source S)) (s s' : Source S)
      → Becomes kind s s'
      → keeps gone (before ++ s ∷ rest)
      → keeps gone ((before ++ s' ∷ []) ++ rest)

module _ {S : Type 0} (kind : Kind S) (quiet : AddsNone kind)
    (keeps : List (Source S) → List (Source S) → Type 0) (k : IsKept kind keeps) where
  abbrev Visits : Source S → Progress S → Visit S → Type 0
  Visits s p v =
      ((s' : Source S) × (p' : Progress S) × Becomes kind s s'
        × (p'.added ≡ [])
        × (((v ≡ stays s' p') × (p'.cleaned ≡ p.cleaned))
            ⊎ ((v ≡ leaves p') × (p'.cleaned ≡ p.cleaned ++ s' ∷ []))))
      ⊎ (v ≡ dies)

  by_status-Visits :
      (s : Source S) (h : S) (p p' : Progress S) (status : Status)
      → Becomes kind s (record s { handler = h })
      → p'.added ≡ []
      → p'.cleaned ≡ p.cleaned
      → Visits s p (by_status s h p' status)
  unfolding by_status remove_handler
  by_status-Visits s h p p' status_ok b a e = inl (_, _, b, a, inl (refl, e))
  by_status-Visits s h p p' status_eof b a e = inl (
    record s { handler = h },
    _,
    b,
    a,
    inr (refl, ap (λ xs. xs ++ record s { handler = h } ∷ []) e),
  )
  by_status-Visits s h p p' status_unknown b a e = inl (
    record s { handler = h },
    _,
    b,
    a,
    inr (refl, ap (λ xs. xs ++ record s { handler = h } ∷ []) e),
  )

  visit-Visits : (s : Source S) (p : Progress S) → p.added ≡ [] → Visits s p (visit kind s p)
  unfolding visit on_read add_sources
  visit-Visits s p a = elim (Bool-cases (is_set s.fd p.fds)) [
    | inr unset ↦ inl (s, p, inl refl, a, inl (rw (unset, visit) refl, refl))
    | inl set ↦ elim (Option-cases (kind p.clock s.handler)) [
      | inl e ↦ inr (rw (set, visit) (rw (e, on_read) refl))
      | inr (r, e) ↦
          rw (set, visit)
            (rw (e, on_read)
              (rw (quiet p.clock s.handler r e) (
                by_status-Visits s r.handler p
                  (record p { added = p.added; queue = p.queue ++ r.lines; clock = suc p.clock })
                  r.status (inr (p.clock, r, e, refl)) a refl)))
    ]
  ]

  abbrev CleansScan : Scanned S → Type 0
  CleansScan (coped r) = keeps r.cleaned r.sources
  CleansScan (rerun r) = keeps r.cleaned r.sources
  CleansScan scan_aborts = Unit

  scan-Cleans :
      (before rest : List (Source S)) (p : Progress S)
      → p.added ≡ []
      → keeps p.cleaned (before ++ rest)
      → CleansScan (scan kind before rest p)
  unfolding scan
  scan-Cleans before [] p a v = subst (λ xs. keeps p.cleaned (before ++ xs)) (sym a) v
  scan-Cleans before (s ∷ rest) p a v = elim (visit-Visits s p a) [
    | inl (s', p', e, a', inl (run, same)) ↦
        rw (run, scan)
          (scan-Cleans (before ++ s' ∷ []) rest p' a'
            (rw same (k.reads p.cleaned before rest s s' e v)))
    | inl (s', p', e, a', inr (run, more)) ↦
        rw (run, scan) (rw (more, a', append-nil rest) (k.moves p.cleaned before rest s s' e v))
    | inr run ↦ rw (run, scan) tt
  ]

  abbrev pub Cleans : Ended S → Type 0
  Cleans (ends r) = keeps r.cleaned r.sources
  Cleans (ends_on_error e r) = keeps r.cleaned r.sources
  Cleans aborted = Unit
  Cleans out_of_fuel = Unit

  -- behind a scan
  after_scan :
      (rounds : ℕ) (r : Reader S) (out : Scanned S)
      → scan kind [] r.sources (progress r) ≡ out
      → CleansScan out
      → ((r' : Reader S) → keeps r'.cleaned r'.sources → Cleans (scan_all kind rounds r'))
      → Cleans (scan_all kind (suc rounds) r)
  unfolding scan_all
  after_scan rounds r (coped r') e c more = rw (e, scan_all) c
  after_scan rounds r (rerun r') e c more = rw (e, scan_all) (more r' c)
  after_scan rounds r scan_aborts e c more = rw (e, scan_all) tt

  pub scan_all-Cleans :
      (rounds : ℕ) (r : Reader S) → keeps r.cleaned r.sources → Cleans (scan_all kind rounds r)
  unfolding scan_all
  scan_all-Cleans zero r v = tt
  scan_all-Cleans (suc rounds) r v =
      after_scan rounds r (scan kind [] r.sources (progress r)) refl
        (scan-Cleans [] r.sources (progress r) refl v) (λ r' v'. scan_all-Cleans rounds r' v')
