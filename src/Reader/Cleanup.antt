-- ===== src/Reader/Cleanup.antt =====
-- The handlers that are cleaned up: by remove_handler, by the recovery from a bad descriptor, and by the
-- reader's own cleanup.
pub mod Scans
use genbuf.Prelude.{
  ℕ, zero, suc, ◌≡◌, ◌⊎◌, Bool, refl, sym, ap, inl, inr, subst, Bool-cases, Option-cases,
  List-cases, Option, none, some, List, [], ◌∷◌, ◌++◌, append-nil, arith, some-injective,
}
use genbuf.Sys.{Errno, ebadf}
use genbuf.InputTools.{Status, status_ok, status_eof, status_unknown}
use genbuf.Reader.{
  Source, Reading, Kind, Kernel, Reader, Progress, Visit, stays, leaves, dies, Scanned, coped,
  rerun, scan_aborts, Ended, ends, ends_on_error, aborted, out_of_fuel, is_set, add_sources,
  remove_handler, by_status, on_read, visit, scan, progress, scan_all, all_fds, keep, without_bad,
  remove_bad, recover, run, Selected, select_failed, readable,
}
use genbuf.Reader.Cleanup.Scans.{AddsNone, IsKept, Cleans, scan_all-Cleans}

-- the source that the recovery takes out, and the others
abbrev Splits : {S : Type 0} → List (Source S) → Option (Source S × List (Source S)) → Type 0
Splits sources none = Unit {0}
Splits {S} sources (some (bad, others)) =
    (before : List (Source S)) × (rest : List (Source S)) × (sources ≡ before ++ bad ∷ rest)
    × (others ≡ before ++ rest)

keep-Splits :
    {S : Type 0} (s : Source S) (sources : List (Source S))
    (r : Option (Source S × List (Source S)))
    → Splits sources r
    → Splits (s ∷ sources) (keep s r)
unfolding keep
keep-Splits s sources none v = tt
keep-Splits s sources (some (bad, others)) (before, rest, e, q) =
    (s ∷ before, rest, ap (λ xs. s ∷ xs) e, ap (λ xs. s ∷ xs) q)

without_bad-Splits :
    {S : Type 0} (good : ℕ → Bool) (sources : List (Source S))
    → Splits sources (without_bad good sources)
unfolding without_bad
without_bad-Splits good [] = tt
without_bad-Splits good (s ∷ rest) = elim (Bool-cases (good s.fd)) [
  | inr bad ↦ rw bad ([], rest, refl, refl)
  | inl fine ↦ rw fine (keep-Splits s rest (without_bad good rest) (without_bad-Splits good rest))
]

remove_bad-Kept :
    {S : Type 0} (kind : Kind S) (keeps : List (Source S) → List (Source S) → Type 0) (r : Reader S)
    (out : Option (Source S × List (Source S)))
    → IsKept kind keeps
    → keeps r.cleaned r.sources
    → Splits r.sources out
    → (r' : Reader S) → remove_bad r out ≡ some r'
    → keeps r'.cleaned r'.sources
unfolding remove_bad
remove_bad-Kept kind keeps r none k v w r' e = absurd (ground arith)
remove_bad-Kept kind keeps r (some (bad, others)) k v (before, rest, e, q) r' same =
    let held : keeps (r.cleaned ++ bad ∷ []) others =
      subst (keeps (r.cleaned ++ bad ∷ [])) (sym q)
        (k.moves r.cleaned before rest bad bad (inl refl) (subst (keeps r.cleaned) e v)) in
    subst (λ x. keeps x.cleaned x.sources) (some-injective _ _ same) held

recover-Kept :
    {S : Type 0} (kind : Kind S) (keeps : List (Source S) → List (Source S) → Type 0)
    (kernel : Kernel) (e : Errno) (r r' : Reader S)
    → IsKept kind keeps
    → keeps r.cleaned r.sources
    → recover kernel e r ≡ some r'
    → keeps r'.cleaned r'.sources
unfolding recover
recover-Kept kind keeps kernel ebadf r r' k v q =
    remove_bad-Kept kind keeps r (without_bad (kernel.has_flags r.clock) r.sources) k v
      (without_bad-Splits (kernel.has_flags r.clock) r.sources) r' q
recover-Kept kind keeps kernel _ r r' k v q = absurd (ground arith)

module _ {S : Type 0} (kind : Kind S) (quiet : AddsNone kind)
    (keeps : List (Source S) → List (Source S) → Type 0) (k : IsKept kind keeps)
    (kernel : Kernel) where
  abbrev Later : ℕ → Type 0
  Later rounds =
      (r : Reader S)
      → keeps r.cleaned r.sources
      → Cleans kind quiet keeps k (run kernel kind rounds r)

  -- behind a recovery
  after_recover :
      (rounds : ℕ) (e : Errno) (r : Reader S) (out : Option (Reader S))
      → keeps r.cleaned r.sources
      → ((r' : Reader S) → out ≡ some r' → keeps r'.cleaned r'.sources)
      → Later rounds
      → Cleans kind quiet keeps k (elim out [
        | none ↦ ends_on_error e (record r { fds = all_fds r.sources })
        | some r' ↦ run kernel kind rounds r'
      ])
  after_recover rounds e r none v held more = v
  after_recover rounds e r (some r') v held more = more r' (held r' refl)

  -- behind a select()
  after_select :
      (rounds : ℕ) (r : Reader S) (out : Selected)
      → keeps r.cleaned r.sources
      → Later rounds
      → Cleans kind quiet keeps k (elim out [
        | readable ready ↦ run kernel kind rounds (record r { fds = ready })
        | select_failed e ↦ elim (recover kernel e r) [
          | none ↦ ends_on_error e (record r { fds = all_fds r.sources })
          | some r' ↦ run kernel kind rounds r'
        ]
      ])
  after_select rounds r (readable ready) v more = more (record r { fds = ready }) v
  after_select rounds r (select_failed e) v more =
      after_recover rounds e r (recover kernel e r) v
        (λ r' q. recover-Kept kind keeps kernel e r r' k v q) more

  after_scans :
      (rounds : ℕ) (r : Reader S) (out : Ended S)
      → scan_all kind rounds r ≡ out
      → Cleans kind quiet keeps k out
      → Later rounds
      → Cleans kind quiet keeps k (run kernel kind (suc rounds) r)
  unfolding run
  after_scans rounds r aborted e c more = rw (e, run) tt
  after_scans rounds r out_of_fuel e c more = rw (e, run) tt
  after_scans rounds r (ends_on_error errno r') e c more = rw (e, run) c
  after_scans rounds r (ends r') e c more = elim (List-cases r'.sources) [
    | inl q ↦ rw (e, run) (rw q c)
    | inr (s, rest, q) ↦
        rw (e, run)
          (rw q (
            after_select rounds (record r' { clock = suc r'.clock })
              (kernel.select r'.clock (all_fds r'.sources)) c more))
  ]

  pub run-Cleans : (rounds : ℕ) → Later rounds
  unfolding run
  run-Cleans zero r v = tt
  run-Cleans (suc rounds) r v =
      after_scans rounds r (scan_all kind rounds r) refl
        (scan_all-Cleans kind quiet keeps k rounds r v) (run-Cleans rounds)
