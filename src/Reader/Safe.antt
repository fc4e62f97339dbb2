-- ===== src/Reader/Safe.antt =====
-- A reader whose sources' reads do not abort does not abort, where sources are added too.
use genbuf.Prelude.{
  ℕ, zero, suc, ◌≡◌, refl, inl, inr, Bool, Bool-cases, List-cases, Option, none, some, List, [],
  ◌∷◌, ◌++◌,
}
use genbuf.Sys.{Errno, ebadf}
use genbuf.InputTools.{Status, status_ok, status_eof, status_unknown}
use genbuf.Reader.{
  Source, Reading, Kind, Kernel, Reader, Progress, Visit, stays, leaves, dies, Scanned, coped,
  rerun, scan_aborts, Ended, ends, ends_on_error, aborted, out_of_fuel, is_set, add_source,
  add_sources, remove_handler, by_status, on_read, visit, scan, progress, scan_all, all_fds, keep,
  without_bad, remove_bad, recover, run, Selected, select_failed, readable,
}
use genbuf.Reader.Ends.{All, All-append}

-- handlers with a descriptor, of which `inv` holds
abbrev pub Added : {S : Type 0} → (S → Type 0) → List (Option ℕ × S) → Type 0
Added inv [] = Unit {0}
Added inv ((none, s) ∷ more) = ⊥
Added inv ((some fd, s) ∷ more) = inv s × Added inv more

-- Where `inv` holds of a source, its read does not abort; it holds of the sources that the read adds,
-- and behind the read, where that is not the last.
abbrev pub IsSafe : {S : Type 0} → (S → Type 0) → Kind S → Type 0
IsSafe {S} inv kind =
    (t : ℕ) (s : S)
    → inv s
    → (r : Reading S) × (kind t s ≡ some r)
      × (r.status ≡ status_ok → inv r.handler)
      × Added inv r.added

add_sources-All :
    {S : Type 0} (inv : S → Type 0) (sources : List (Source S)) (added : List (Option ℕ × S))
    → All inv sources
    → Added inv added
    → (sources' : List (Source S)) × (add_sources sources added ≡ some sources') × All inv sources'
unfolding add_sources add_source All
add_sources-All inv sources [] v a = (sources, refl, v)
add_sources-All inv sources ((none, s) ∷ more) v a = absurd a
add_sources-All inv sources ((some fd, s) ∷ more) v (i, a) =
    add_sources-All inv (sources ++ record { fd = fd; handler = s } ∷ []) more
      (All-append inv sources _ v (i, tt)) a

module _ {S : Type 0} (inv : S → Type 0) (kind : Kind S) (safe : IsSafe inv kind) where
  abbrev Visits : Visit S → Type 0
  Visits (stays s p) = inv s.handler × All inv p.added
  Visits (leaves p) = All inv p.added
  Visits dies = ⊥

  by_status-Visits :
      (s : Source S) (h : S) (p : Progress S) (status : Status)
      → (status ≡ status_ok → inv h)
      → All inv p.added
      → Visits (by_status s h p status)
  unfolding by_status remove_handler
  by_status-Visits s h p status_ok i a = (i refl, a)
  by_status-Visits s h p status_eof i a = a
  by_status-Visits s h p status_unknown i a = a

  visit-Visits :
      (s : Source S) (p : Progress S) → inv s.handler → All inv p.added → Visits (visit kind s p)
  unfolding visit on_read
  visit-Visits s p i a = elim (Bool-cases (is_set s.fd p.fds)) [
    | inr unset ↦ rw (unset, visit) (i, a)
    | inl set ↦
        let (r, q, keeps, new) = safe p.clock s.handler i in
        let (added, e, a') = add_sources-All inv p.added r.added a new in
        rw (set, visit)
          (rw (q, on_read) (rw (e, on_read) (by_status-Visits s r.handler _ r.status keeps a')))
  ]

  abbrev Scans : Scanned S → Type 0
  Scans (coped r) = All inv r.sources
  Scans (rerun r) = All inv r.sources
  Scans scan_aborts = ⊥

  -- behind a visit
  after_visit :
      (before : List (Source S)) (s : Source S) (rest : List (Source S)) (p : Progress S)
      (v : Visit S)
      → visit kind s p ≡ v
      → Visits v
      → All inv before
      → All inv rest
      → ((s' : Source S) (p' : Progress S)
          → inv s'.handler
          → All inv p'.added
          → Scans (scan kind (before ++ s' ∷ []) rest p'))
      → Scans (scan kind before (s ∷ rest) p)
  unfolding scan
  after_visit before s rest p (stays s' p') e (i, a) b l more = rw (e, scan) (more s' p' i a)
  after_visit before s rest p (leaves p') e a b l more =
      rw (e, scan) (All-append inv before (rest ++ p'.added) b (All-append inv rest p'.added l a))
  after_visit before s rest p dies e a b l more = absurd a

  scan-Scans :
      (before rest : List (Source S)) (p : Progress S)
      → All inv before
      → All inv rest
      → All inv p.added
      → Scans (scan kind before rest p)
  unfolding scan All
  scan-Scans before [] p b l a = All-append inv before p.added b a
  scan-Scans before (s ∷ rest) p b (i, l) a =
      after_visit before s rest p (visit kind s p) refl (visit-Visits s p i a) b l (λ s' p' i' a'.
        scan-Scans (before ++ s' ∷ []) rest p' (All-append inv before (s' ∷ []) b (i', tt)) l a')

  -- the reader ends, or runs on, with sources of which `inv` holds
  abbrev pub Goes : Ended S → Type 0
  Goes (ends r) = All inv r.sources
  Goes (ends_on_error e r) = All inv r.sources
  Goes aborted = ⊥
  Goes out_of_fuel = Unit

  after_scan :
      (rounds : ℕ) (r : Reader S) (out : Scanned S)
      → scan kind [] r.sources (progress r) ≡ out
      → Scans out
      → ((r' : Reader S) → All inv r'.sources → Goes (scan_all kind rounds r'))
      → Goes (scan_all kind (suc rounds) r)
  unfolding scan_all
  after_scan rounds r (coped r') e v more = rw (e, scan_all) v
  after_scan rounds r (rerun r') e v more = rw (e, scan_all) (more r' v)
  after_scan rounds r scan_aborts e v more = absurd v

  scan_all-Goes : (rounds : ℕ) (r : Reader S) → All inv r.sources → Goes (scan_all kind rounds r)
  unfolding scan_all All
  scan_all-Goes zero r v = tt
  scan_all-Goes (suc rounds) r v =
      after_scan rounds r _ refl (scan-Scans [] r.sources (progress r) tt v tt)
        (λ r' v'. scan_all-Goes rounds r' v')

  abbrev Removes : Option (Source S × List (Source S)) → Type 0
  Removes none = Unit
  Removes (some (bad, others)) = All inv others

  keep-Removes :
      (s : Source S) (out : Option (Source S × List (Source S)))
      → inv s.handler
      → Removes out
      → Removes (keep s out)
  unfolding keep All
  keep-Removes s none i v = tt
  keep-Removes s (some (bad, others)) i v = (i, v)

  without_bad-Removes :
      (good : ℕ → Bool) (sources : List (Source S))
      → All inv sources
      → Removes (without_bad good sources)
  unfolding without_bad All
  without_bad-Removes good [] v = tt
  without_bad-Removes good (s ∷ rest) (i, v) = elim (Bool-cases (good s.fd)) [
    | inr bad ↦ rw bad v
    | inl fine ↦
        rw fine (keep-Removes s (without_bad good rest) i (without_bad-Removes good rest v))
  ]

  abbrev Recovers : Option (Reader S) → Type 0
  Recovers none = Unit
  Recovers (some r) = All inv r.sources

  remove_bad-Recovers :
      (r : Reader S) (out : Option (Source S × List (Source S)))
      → Removes out
      → Recovers (remove_bad r out)
  unfolding remove_bad
  remove_bad-Recovers r none v = tt
  remove_bad-Recovers r (some (bad, others)) v = v

  recover-Recovers :
      (kernel : Kernel) (e : Errno) (r : Reader S)
      → All inv r.sources
      → Recovers (recover kernel e r)
  unfolding recover
  recover-Recovers kernel ebadf r v =
      remove_bad-Recovers r _ (without_bad-Removes (kernel.has_flags r.clock) r.sources v)
  recover-Recovers kernel _ r v = tt

  module _ (kernel : Kernel) where
    abbrev Later : ℕ → Type 0
    Later rounds = (r : Reader S) → All inv r.sources → Goes (run kernel kind rounds r)

    after_recover :
        (rounds : ℕ) (e : Errno) (r : Reader S) (out : Option (Reader S))
        → All inv r.sources
        → Recovers out
        → Later rounds
        → Goes (elim out [
          | none ↦ ends_on_error e (record r { fds = all_fds r.sources })
          | some r' ↦ run kernel kind rounds r'
        ])
    after_recover rounds e r none v w more = v
    after_recover rounds e r (some r') v w more = more r' w

    after_select :
        (rounds : ℕ) (r : Reader S) (out : Selected)
        → All inv r.sources
        → Later rounds
        → Goes (elim out [
          | readable ready ↦ run kernel kind rounds (record r { fds = ready })
          | select_failed e ↦ elim (recover kernel e r) [
            | none ↦ ends_on_error e (record r { fds = all_fds r.sources })
            | some r' ↦ run kernel kind rounds r'
          ]
        ])
    after_select rounds r (readable ready) v more = more (record r { fds = ready }) v
    after_select rounds r (select_failed e) v more =
        after_recover rounds e r (recover kernel e r) v (recover-Recovers kernel e r v) more

    after_scans :
        (rounds : ℕ) (r : Reader S) (out : Ended S)
        → scan_all kind rounds r ≡ out
        → Goes out
        → Later rounds
        → Goes (run kernel kind (suc rounds) r)
    unfolding run
    after_scans rounds r aborted e v more = absurd v
    after_scans rounds r out_of_fuel e v more = rw (e, run) tt
    after_scans rounds r (ends_on_error errno r') e v more = rw (e, run) v
    after_scans rounds r (ends r') e v more = elim (List-cases r'.sources) [
      | inl q ↦ rw (e, run) (rw q v)
      | inr (s, rest, q) ↦
          rw (e, run)
            (rw q (
              after_select rounds (record r' { clock = suc r'.clock })
                (kernel.select r'.clock (all_fds r'.sources)) v more))
    ]

    pub run-Goes : (rounds : ℕ) → Later rounds
    unfolding run
    run-Goes zero r v = tt
    run-Goes (suc rounds) r v =
        after_scans rounds r (scan_all kind rounds r) refl (scan_all-Goes rounds r v)
          (run-Goes rounds)
