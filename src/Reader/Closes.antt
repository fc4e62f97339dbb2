-- ===== src/Reader/Closes.antt =====
-- Each source is cleaned up once, and on a common handler its descriptor is closed once.
pub mod Common
use genbuf.Prelude.{
  ℕ, suc, ◌<◌, ◌≡◌, ◌≢◌, ◌⊎◌, refl, sym, ap, ap₂, ◌∙◌, inl, inr, subst, Bool, Bool-cases, some,
  List, [], ◌∷◌, ◌++◌, append_assoc, append-nil, arith, if◌then◌else◌,
}
use mathlib.Core.List.{Perm, perm_middle}
use mathlib.Core.List.Perm
use genbuf.Sys.{Errno}
use genbuf.InputTools.{Answer, CommonHandler, is_eof, status_eof, returned, common_read}
use genbuf.InputTools.Assembler.{Mode}
use genbuf.InputTools.Refine.{Models, Models-held, held_bytes}
use genbuf.InputTools.Faults.{Obeys, read_total, read_eof}
use genbuf.InputBuffer.Shape.{Holds}
use genbuf.Reader.{
  Source, Reading, Kind, Kernel, Reader, Ended, ends, ends_on_error, common_kind, all_fds, run,
  clean_handlers,
}
use genbuf.Reader.Common.{common_kind-returned}
use genbuf.Reader.Reread.{reading_ok, reading_eof}
use genbuf.Reader.Cleanup.{run-Cleans}
use genbuf.Reader.Cleanup.Scans.{AddsNone, Becomes, IsKept, Cleans}

all_fds-append :
    {S : Type 0} (xs ys : List (Source S)) → all_fds (xs ++ ys) ≡ all_fds xs ++ all_fds ys
unfolding all_fds
all_fds-append [] ys = refl
all_fds-append (x ∷ xs) ys = ap (λ fds. x.fd ∷ fds) (all_fds-append xs ys)

-- the descriptors of the sources that are cleaned up, and of those that are left
abbrev Accounts : {S : Type 0} → List ℕ → List (Source S) → List (Source S) → Type 0
Accounts fds gone left = Perm (all_fds (gone ++ left)) fds

-- a source goes from the list to those that are cleaned up
moved :
    {S : Type 0} (gone before rest : List (Source S)) (s s' : Source S) (fds : List ℕ)
    → s'.fd ≡ s.fd
    → Accounts fds gone (before ++ s ∷ rest)
    → Accounts fds (gone ++ s' ∷ []) (before ++ rest)
unfolding all_fds
moved gone before rest s s' fds e v =
    let out : all_fds ((gone ++ s' ∷ []) ++ (before ++ rest))
        ≡ all_fds gone ++ s.fd ∷ (all_fds before ++ all_fds rest) =
      ap all_fds (append_assoc gone (s' ∷ []) (before ++ rest))
      ∙ (all_fds-append gone (s' ∷ (before ++ rest))
          ∙ ap₂ (λ fd xs. all_fds gone ++ fd ∷ xs) e (all_fds-append before rest)) in
    let old : all_fds gone ++ (all_fds before ++ s.fd ∷ all_fds rest)
        ≡ all_fds (gone ++ (before ++ s ∷ rest)) =
      sym (
        all_fds-append gone (before ++ s ∷ rest)
        ∙ ap (λ xs. all_fds gone ++ xs) (all_fds-append before (s ∷ rest))) in
    Perm.trans
      (subst (λ xs. Perm xs (all_fds (gone ++ (before ++ s ∷ rest)))) (sym out)
        (subst (Perm (all_fds gone ++ s.fd ∷ (all_fds before ++ all_fds rest))) old (
          Perm.append_left (all_fds gone)
            (Perm.symm (perm_middle (all_fds before) (all_fds rest))))))
      v

-- a read changes the handler of a source, and not its descriptor
same_fds :
    {S : Type 0} (before rest : List (Source S)) (s s' : Source S)
    → s'.fd ≡ s.fd
    → all_fds (before ++ s' ∷ rest) ≡ all_fds (before ++ s ∷ rest)
unfolding all_fds
same_fds [] rest s s' e = ap (λ fd. fd ∷ all_fds rest) e
same_fds (x ∷ before) rest s s' e = ap (λ fds. x.fd ∷ fds) (same_fds before rest s s' e)

stayed :
    {S : Type 0} (gone before rest : List (Source S)) (s s' : Source S) (fds : List ℕ)
    → s'.fd ≡ s.fd
    → Accounts fds gone (before ++ s ∷ rest)
    → Accounts fds gone ((before ++ s' ∷ []) ++ rest)
stayed gone before rest s s' fds e v =
    let same : all_fds (gone ++ ((before ++ s' ∷ []) ++ rest))
        ≡ all_fds (gone ++ (before ++ s ∷ rest)) =
      ap (λ xs. all_fds (gone ++ xs)) (append_assoc before (s' ∷ []) rest)
      ∙ (all_fds-append gone (before ++ s' ∷ rest)
          ∙ (ap (λ xs. all_fds gone ++ xs) (same_fds before rest s s' e)
              ∙ sym (all_fds-append gone (before ++ s ∷ rest)))) in
    subst (λ xs. Perm xs fds) (sym same) v

Becomes-fd : {S : Type 0} (kind : Kind S) (s s' : Source S) → Becomes kind s s' → s'.fd ≡ s.fd
Becomes-fd kind s s' (inl e) = ap (λ x. x.fd) e
Becomes-fd kind s s' (inr (t, r, _, e)) = ap (λ x. x.fd) e

fds-IsKept : {S : Type 0} (kind : Kind S) (fds : List ℕ) → IsKept kind (Accounts fds)
fds-IsKept kind fds = record {
  moves = λ gone before rest s s' b v. moved gone before rest s s' fds (Becomes-fd kind s s' b) v;
  reads = λ gone before rest s s' b v. stayed gone before rest s s' fds (Becomes-fd kind s s' b) v;
}

-- However the reader's run ends, by the end of all sources or by an error of select(): behind the
-- reader's cleanup the handlers that were cleaned up, by a removal, by the recovery from a bad
-- descriptor or by the cleanup itself, are those of the sources that the reader began with, each once.
-- The conditions are that none was cleaned up before, and that the reads add no source.
pub run-cleans :
    {S : Type 0} (kind : Kind S) (kernel : Kernel) (rounds : ℕ) (r r' : Reader S)
    → AddsNone kind
    → r.cleaned ≡ []
    → ((run kernel kind rounds r ≡ ends r')
        ⊎ ((e : Errno) × (run kernel kind rounds r ≡ ends_on_error e r')))
    → Perm (all_fds (clean_handlers r').cleaned) (all_fds r.sources)
unfolding clean_handlers
run-cleans kind kernel rounds r r' quiet none_yet out =
    let c =
      run-Cleans kind quiet (Accounts (all_fds r.sources)) (fds-IsKept kind (all_fds r.sources))
        kernel rounds r (rw none_yet Perm.rfl) in
    elim out [ inl e ↦ rw e at c | inr (e, q) ↦ rw q at c ]
