-- ===== src/Reader/Common.antt =====
-- The common handler of input_tools.c as a source of the reader.
use genbuf.Prelude.{ℕ, suc, ◌≡◌, ◌≢◌, ◌<◌, refl, inl, inr, some, List, [], ◌∷◌, ◌++◌, length}
use genbuf.InputTools.{Answer, CommonHandler, is_eof, status_ok, returned, common_read}
use genbuf.InputTools.Assembler.{Mode, skipping, feed}
use genbuf.InputTools.Refine.{Models, Models-open, Models-held, Delivers, read_refines}
use genbuf.InputTools.Faults.{Obeys, read_nothing, read_total}
use genbuf.InputBuffer.Shape.{Holds-write}
use genbuf.Reader.{Reader, common_kind, ends, scan_all}
use genbuf.Reader.Ends.{Closed}
use genbuf.Reader.Reread.{reading_ok, reading_eof, two, scan_all-rereads}

pub common_kind-returned :
    (answers : ℕ → Answer) (t : ℕ) (h h' : CommonHandler) (lines : List (List ℕ))
    → common_read (answers t) h ≡ returned status_ok h' lines
    → common_kind answers t h ≡ some (reading_ok h' lines)
unfolding common_kind
common_kind-returned answers t h h' lines e = rw (e, common_kind) refl

-- FIONREAD 0 is the end of a source
pub common_kind-eof :
    (n t : ℕ) (h : CommonHandler) (m : Mode) (answers : ℕ → Answer)
    → 0 < n
    → Models n h m
    → (answers t).fionread ≡ some 0
    → common_kind answers t h ≡ some (reading_eof (record h { state = is_eof }))
unfolding common_kind
common_kind-eof n t h m answers z v e =
    let (open_state, free) = Models-open n h m z v in
    let w = Holds-write (Models-held n h m v) free in
    rw (read_nothing n h (answers t) w open_state (inr e), common_kind) refl

-- Where read() obeys its contract and returns fewer bytes than the buffer has, the common handlers are
-- sources whose reads end and add none, under the invariant that they are in some mode.
pub common_kind-Closed :
    (n : ℕ) (answers : ℕ → Answer)
    → 0 < n
    → ((t : ℕ) → Obeys n (answers t))
    → Closed (λ h. (m : Mode) × Models n h m) (common_kind answers)
unfolding common_kind
common_kind-Closed n answers z o t h (m, v) =
    let (h', lines, out) = read_total n h m (answers t) z v (o t) in
    elim out [
      | inl (e, v', _) ↦ (reading_ok h' lines, rw (e, common_kind) refl, refl, λ q. v')
      | inr (e, end, none) ↦
          (reading_eof h', rw (e, none, common_kind) refl, refl, λ q. absurd (cc))
    ]

-- Two sources on common handlers whose buffers are not of size 0, on different descriptors, that
-- select() reports. The first delivers some bytes, fewer than its buffer has while a long line is
-- skipped, and then FIONREAD reports 0 for it, and for the second at once. Then the scans end with
-- neither source: the first is removed as if at its end, and its lines of the one read are the last.
pub common_rereads :
    (n i j rounds t : ℕ) (h g : CommonHandler) (m m' : Mode) (answers : ℕ → Answer) (chunk : List ℕ)
    (queue : List (List ℕ))
    → 0 < n
    → i ≢ j
    → Models n h m
    → Models n g m'
    → Delivers (answers t) h chunk
    → (m ≡ skipping → length chunk < n)
    → (answers (suc t)).fionread ≡ some 0
    → (answers (suc (suc t))).fionread ≡ some 0
    → (r : Reader CommonHandler) × (scan_all
          (common_kind answers)
          (suc (suc (suc rounds)))
          (record {
            sources = two i j h g;
            fds = i ∷ j ∷ [];
            queue = queue;
            clock = t;
            cleaned = [];
          })
        ≡ ends r)
      × (r.sources ≡ [])
      × (r.queue ≡ queue ++ (feed n m chunk).1)
common_rereads n i j rounds t h g m m' answers chunk queue z k v v' d s e1 e2 =
    let (h', run, held, same) = read_refines n h m (answers t) chunk z v d s in
    scan_all-rereads (common_kind answers) i j rounds h h' (record h' { state = is_eof }) g
      (record g { state = is_eof }) (feed n m chunk).1 queue t k
      (common_kind-returned answers t h h' (feed n m chunk).1 run)
      (common_kind-eof n (suc t) g m' answers z v' e1)
      (common_kind-eof n (suc (suc t)) h' (feed n m chunk).0 answers z held e2)
