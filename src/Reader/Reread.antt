-- ===== src/Reader/Reread.antt =====
-- The scan that begins anew behind a removal: descriptors that were read stay set, so that a source
-- that was read already is read again.
use genbuf.Prelude.{append-nil, ◌∙◌, ℕ, suc, ◌≡◌, ◌≢◌, refl, some, List, [], ◌∷◌, ◌++◌, arith}
use genbuf.InputTools.{status_ok, status_eof}
use genbuf.Reader.{
  Source, Reading, Kind, Reader, is_set, clear, add_sources, by_status, remove_handler, on_read,
  visit, rerun, scan, ends, scan_all, progress,
}

-- a read that adds no source
abbrev pub reading_ok : {S : Type 0} → S → List (List ℕ) → Reading S
reading_ok h lines = record { status = status_ok; handler = h; lines = lines; added = [] }

abbrev pub reading_eof : {S : Type 0} → S → Reading S
reading_eof h = record { status = status_eof; handler = h; lines = []; added = [] }

abbrev pub two : {S : Type 0} → ℕ → ℕ → S → S → List (Source S)
two i j a b = record { fd = i; handler = a } ∷ record { fd = j; handler = b } ∷ []

scan_all-rerun :
    {S : Type 0} (kind : Kind S) (rounds : ℕ) (r r' : Reader S)
    → scan kind [] r.sources (progress r) ≡ rerun r'
    → scan_all kind (suc rounds) r ≡ scan_all kind rounds r'
unfolding scan_all
scan_all-rerun kind rounds r r' e = rw (e, scan_all) refl

scan_all-none :
    {S : Type 0} (kind : Kind S) (rounds : ℕ) (r : Reader S)
    → r.sources ≡ []
    → scan_all kind (suc rounds) r ≡ ends (record r { sources = [] })
unfolding scan_all scan
scan_all-none kind rounds r e = rw (e, scan_all) refl

module _ {S : Type 0} (kind : Kind S) (i j : ℕ) (a a' a'' b b' : S) (lines : List (List ℕ))
    (queue : List (List ℕ)) (t : ℕ) (k : i ≢ j) (first : kind t a ≡ some (reading_ok a' lines))
    (second : kind (suc t) b ≡ some (reading_eof b'))
    (third : kind (suc (suc t)) a' ≡ some (reading_eof a'')) where
  scan_both :
      scan kind []
        (two i j a b)
        (record { added = []; fds = i ∷ j ∷ []; queue = queue; clock = t; cleaned = [] })
      ≡ rerun (record {
        sources = record { fd = i; handler = a' } ∷ [];
        fds = i ∷ [];
        queue = (queue ++ lines) ++ [];
        clock = suc (suc t);
        cleaned = record { fd = j; handler = b' } ∷ [];
      })
  unfolding scan visit is_set on_read add_sources by_status remove_handler clear
  scan_both = ground (arith, first, second)

  scan_last :
      (q : List (List ℕ))
      → scan kind [] (record { fd = i; handler = a' } ∷ []) (record {
        added = [];
        fds = i ∷ [];
        queue = q;
        clock = suc (suc t);
        cleaned = record { fd = j; handler = b' } ∷ [];
      })
        ≡ rerun (record {
          sources = [];
          fds = [];
          queue = q ++ [];
          clock = suc (suc (suc t));
          cleaned = record { fd = j; handler = b' } ∷ record { fd = i; handler = a'' } ∷ [];
        })
  unfolding scan visit is_set on_read add_sources by_status remove_handler clear
  scan_last q = ground (arith, third)

-- Where select() reports two sources of different descriptors, of which the first reads and then has
-- nothing left, so that one more read of it is the end of the source, and the second is at its end:
-- then the scans end with neither source, and keep of the first only the lines of its one read.
pub scan_all-rereads :
    {S : Type 0} (kind : Kind S) (i j rounds : ℕ) (a a' a'' b b' : S) (lines queue : List (List ℕ))
    (t : ℕ)
    → i ≢ j
    → kind t a ≡ some (reading_ok a' lines)
    → kind (suc t) b ≡ some (reading_eof b')
    → kind (suc (suc t)) a' ≡ some (reading_eof a'')
    → (r : Reader S) × (scan_all kind (suc (suc (suc rounds))) (record {
      sources = two i j a b;
      fds = i ∷ j ∷ [];
      queue = queue;
      clock = t;
      cleaned = [];
    })
        ≡ ends r)
      × (r.sources ≡ [])
      × (r.queue ≡ queue ++ lines)
scan_all-rereads kind i j rounds a a' a'' b b' lines queue t k first second third =
    let q = (queue ++ lines) ++ [] in
    (
      record {
        sources = [];
        fds = [];
        queue = q ++ [];
        clock = suc (suc (suc t));
        cleaned = record { fd = j; handler = b' } ∷ record { fd = i; handler = a'' } ∷ [];
      },
      scan_all-rerun kind _ _ _
            (scan_both kind i j a a' a'' b b' lines queue t k first second third)
          ∙ (scan_all-rerun kind _ _ _
                (scan_last kind i j a a' a'' b b' lines queue t k first second third q)
              ∙ scan_all-none kind rounds _ refl),
      refl,
      append-nil q ∙ append-nil (queue ++ lines),
    )
