-- ===== src/Reader/Closes/Common.antt =====
-- The descriptors that the cleanups of common handlers close.
use genbuf.Prelude.{
  ℕ, ◌<◌, ◌≡◌, ◌⊎◌, refl, sym, ap, ap₂, ◌∙◌, inl, inr, subst, Bool, none, some, List, [], ◌∷◌, ◌++◌,
  arith, some-injective,
}
use mathlib.Core.List.{Perm}
use genbuf.Sys.{Errno}
use genbuf.InputTools
use genbuf.InputTools.{
  Outcome, Answer, CommonHandler, is_eof, status_ok, status_eof, returned, common_read,
}
use genbuf.InputTools.Assembler.{Mode}
use genbuf.InputTools.Refine.{Models, Models-held, held_bytes}
use genbuf.InputTools.Faults.{Obeys, read_total, read_eof}
use genbuf.InputTools.Cleanup.{common_cleanup, closed_by, common_cleanup-closes, common_getfd}
use genbuf.InputBuffer.Shape.{Holds}
use genbuf.Reader.{
  Source, Reading, Kind, Kernel, Reader, ends, ends_on_error, common_kind, all_fds, run,
  clean_handlers,
}
use genbuf.Reader.Common.{common_kind-returned}
use genbuf.Reader.Reread.{reading_ok, reading_eof}
use genbuf.Reader.Cleanup.{run-Cleans}
use genbuf.Reader.Cleanup.Scans.{AddsNone, Becomes, IsKept}
use genbuf.Reader.Closes.{run-cleans}

-- what close() is called for, where the handlers are cleaned up in this order
unfoldable pub closed_fds : (ℕ → Bool) → List (Source CommonHandler) → List ℕ
closed_fds close [] = []
closed_fds close (s ∷ rest) = closed_by (common_cleanup close s.handler) ++ closed_fds close rest

-- a handler that reads on, or one at its end
abbrev Alive : ℕ → CommonHandler → Type 0
Alive n h = ((m : Mode) × Models n h m) ⊎ ((h.state ≡ is_eof) × (xs : List ℕ) × Holds h.inbuf xs)

-- its descriptor is the one that the reader has
abbrev pub IsSound : ℕ → Source CommonHandler → Type 0
IsSound n s = (common_getfd s.handler ≡ s.fd) × Alive n s.handler

unfoldable pub Each : {S : Type 0} → (Source S → Type 0) → List (Source S) → Type 0
Each fits [] = Unit
Each fits (s ∷ rest) = fits s × Each fits rest

module _ {S : Type 0} (fits : Source S → Type 0) where
  Each-append : (xs ys : List (Source S)) → Each fits xs → Each fits ys → Each fits (xs ++ ys)
  unfolding Each
  Each-append [] ys v w = w
  Each-append (x ∷ xs) ys (v, vs) w = (v, Each-append xs ys vs w)

  Each-split : (xs ys : List (Source S)) → Each fits (xs ++ ys) → Each fits xs × Each fits ys
  unfolding Each
  Each-split [] ys v = (tt, v)
  Each-split (x ∷ xs) ys (v, vs) = let (a, b) = Each-split xs ys vs in ((v, a), b)

  -- where a read keeps it, it is kept of all sources
  Each-IsKept :
      (kind : Kind S)
      → ((s s' : Source S) → Becomes kind s s' → fits s → fits s')
      → IsKept kind (λ gone left. Each fits (gone ++ left))
  unfolding Each
  Each-IsKept kind keeps = record {
    moves = λ gone before rest s s' b v.
        let (g, l) = Each-split gone (before ++ s ∷ rest) v in
        let (f, (x, r)) = Each-split before (s ∷ rest) l in
        Each-append (gone ++ s' ∷ []) (before ++ rest)
          (Each-append gone (s' ∷ []) g (keeps s s' b x, tt)) (Each-append before rest f r);
    reads = λ gone before rest s s' b v.
        let (g, l) = Each-split gone (before ++ s ∷ rest) v in
        let (f, (x, r)) = Each-split before (s ∷ rest) l in
        Each-append gone ((before ++ s' ∷ []) ++ rest) g (
          Each-append (before ++ s' ∷ []) rest (Each-append before (s' ∷ []) f (keeps s s' b x, tt))
            r);
  }

module _ (n : ℕ) (z : 0 < n) (answers : ℕ → Answer) (o : (t : ℕ) → Obeys n (answers t)) where
  -- a read leaves a sound source
  reading-IsSound :
      (t : ℕ) (s : Source CommonHandler) (r : Reading CommonHandler)
      → IsSound n s
      → common_kind answers t s.handler ≡ some r
      → IsSound n (record s { handler = r.handler }) × (r.added ≡ [])
  unfolding common_getfd common_kind
  reading-IsSound t s r (fd, inl (m, v)) e =
      let (h', lines, out) = read_total n s.handler m (answers t) z v (o t) in
      elim out [
        | inl (ran, v', (same_fd, same_start)) ↦
            let same : reading_ok h' lines ≡ r =
              some-injective _ _
                (sym (common_kind-returned answers t s.handler h' lines ran) ∙ e) in
            subst (λ x. IsSound n (record s { handler = x.handler }) × (x.added ≡ [])) same
              ((same_fd ∙ fd, inl v'), refl)
        | inr (ran, at_end, no_lines) ↦
            let same : (record (reading_eof h') { lines = lines }) ≡ r =
              some-injective _ _ (sym (rw (ran, common_kind) refl) ∙ e) in
            subst (λ x. IsSound n (record s { handler = x.handler }) × (x.added ≡ [])) same
              (rw at_end ((fd, inr (refl, held_bytes m, Models-held n s.handler m v)), refl))
      ]
  reading-IsSound t s r (fd, inr (at_end, xs, v)) e =
      let same : reading_eof s.handler ≡ r =
        some-injective _ _
          (sym (rw (read_eof s.handler (answers t) at_end, common_kind) refl) ∙ e) in
      subst (λ x. IsSound n (record s { handler = x.handler }) × (x.added ≡ [])) same
        ((fd, inr (at_end, xs, v)), refl)

  Becomes-IsSound :
      (s s' : Source CommonHandler)
      → Becomes (common_kind answers) s s'
      → IsSound n s
      → IsSound n s'
  Becomes-IsSound s s' (inl e) v = subst (IsSound n) (sym e) v
  Becomes-IsSound s s' (inr (t, r, read, e)) v =
      subst (IsSound n) (sym e) (reading-IsSound t s r v read).0

common_kind-AddsNone : (answers : ℕ → Answer) → AddsNone (common_kind answers)
unfolding common_kind
common_kind-AddsNone answers t h r e = by_outcome (common_read (answers t) h) e
  where
    by_outcome :
        (out : Outcome)
        → elim out [
          | returned st h' lines ↦
              some (record { status = st; handler = h'; lines = lines; added = [] })
          | InputTools.aborted ↦ none
          | InputTools.out_of_fuel ↦ none
        ]
          ≡ some r
        → r.added ≡ []
    by_outcome (returned st h' lines) q = sym (ap (λ x. x.added) (some-injective _ _ q))
    by_outcome InputTools.aborted q = absurd (ground arith)
    by_outcome InputTools.out_of_fuel q = absurd (ground arith)

closes_own :
    (n : ℕ) (close : ℕ → Bool) (s : Source CommonHandler)
    → IsSound n s
    → closed_by (common_cleanup close s.handler) ≡ s.fd ∷ []
closes_own n close s (fd, alive) = common_cleanup-closes close s.handler ∙ ap (λ x. x ∷ []) fd

closed_fds-all :
    (n : ℕ) (close : ℕ → Bool) (sources : List (Source CommonHandler))
    → Each (IsSound n) sources
    → closed_fds close sources ≡ all_fds sources
unfolding closed_fds Each all_fds
closed_fds-all n close [] v = refl
closed_fds-all n close (s ∷ rest) (v, vs) =
    ap₂ (λ xs ys. xs ++ ys) (closes_own n close s v) (closed_fds-all n close rest vs)

-- However the run of a reader on common handlers ends, by the end of all sources or by an error of
-- select(): the descriptors that close() is called for, where the cleanups of the handlers removed and
-- of those left are run in their order, are those of the sources that the reader began with, each
-- once, whether or not close() fails. The conditions are that no source was cleaned up before, that the
-- buffers are not of size 0, that each source is in some mode, or at its end, on the descriptor that
-- the reader has, and that read() returns fewer bytes than a buffer has and no more than it is asked for.
pub common_closes :
    (n : ℕ) (close : ℕ → Bool) (answers : ℕ → Answer) (kernel : Kernel) (rounds : ℕ)
    (r r' : Reader CommonHandler)
    → 0 < n
    → ((t : ℕ) → Obeys n (answers t))
    → Each (IsSound n) r.sources
    → r.cleaned ≡ []
    → ((run kernel (common_kind answers) rounds r ≡ ends r')
        ⊎ ((e : Errno) × (run kernel (common_kind answers) rounds r ≡ ends_on_error e r')))
    → Perm (closed_fds close (clean_handlers r').cleaned) (all_fds r.sources)
unfolding clean_handlers
common_closes n close answers kernel rounds r r' z o v none_yet out =
    let kind = common_kind answers in
    let kept =
      run-Cleans kind (common_kind-AddsNone answers) (λ gone left. Each (IsSound n) (gone ++ left))
        (Each-IsKept (IsSound n) kind (Becomes-IsSound n z answers o)) kernel rounds r
        (rw none_yet v) in
    let all : Each (IsSound n) (r'.cleaned ++ r'.sources) = elim out [
      | inl e ↦ rw e at kept
      | inr (e, q) ↦ rw q at kept
    ] in
    subst (λ fds. Perm fds (all_fds r.sources)) (sym (closed_fds-all n close _ all))
      (run-cleans kind kernel rounds r r' (common_kind-AddsNone answers) none_yet out)
