-- ===== src/InputTools/Faults.antt =====
-- `input_handler_common_read` on every answer of the kernel, and the read that loses its lines.
use genbuf.Prelude.{
  ℕ, zero, suc, ◌-◌, ◌≤◌, ◌<◌, ◌≡◌, ◌≢◌, refl, ◌∙◌, List, [], ◌∷◌, arith, length, none, some, inl,
  inr, ◌⊎◌, Option-cases,
}
use genbuf.Sys.{Errno, ReadResult, failed, got}
use genbuf.InputBuffer.{InputBuffer, min_of, store, update, getline, purgeline}
use genbuf.InputBuffer.Shape.{Holds-write}
use genbuf.InputBuffer.Fill.{update_frame}
use genbuf.InputBuffer.Line.{take_line}
use genbuf.InputBuffer.Purge.Lost.{AtEnd, purged-AtEnd, getline-AtEnd, lost_after_purge}
use genbuf.InputTools.{
  CommonHandler, is_ready, is_err, is_eof, Answer, Outcome, returned, status_ok, status_eof, drain,
  report_lines, after_update, common_read,
}
use genbuf.InputTools.Assembler.{Mode, skipping, feed}
use genbuf.InputTools.Refine.{
  Models, SameSource, Delivers, Models-open, Models-held, open_lem, read_refines,
}

-- read() returns no more bytes than it is asked for, and fewer than `n`.
abbrev pub Obeys : ℕ → Answer → Type 0
Obeys n a = (k : ℕ) (xs : List ℕ) → a.read k ≡ got xs → (length xs ≤ k) × (length xs < n)

-- what a read may come to: it goes on in some mode, or the source is at its end
abbrev pub Ends : ℕ → CommonHandler → Outcome → Type 0
Ends n h out =
    (h' : CommonHandler) × (lines : List (List ℕ)) × (((out ≡ returned status_ok h' lines)
        × ((m : Mode) × Models n h' m)
        × SameSource h h')
      ⊎ ((out ≡ returned status_eof h' lines) × (h' ≡ record h { state = is_eof }) × (lines ≡ [])))

module _ (n : ℕ) (h : CommonHandler) (a : Answer)
    (room : (0 < h.inbuf.write) × (h.inbuf.write ≤ h.inbuf.available))
    (open_state : h.state ≢ is_eof) where
  pub read_nothing :
      (a.fionread ≡ none) ⊎ (a.fionread ≡ some 0)
      → common_read a h ≡ returned status_eof (record h { state = is_eof }) []
  unfolding common_read
  read_nothing (inl e) = ground (arith, e)
  read_nothing (inr e) = ground (arith, e)

  read_failed :
      (k : ℕ) (e : Errno)
      → a.fionread ≡ some k
      → k ≢ 0
      → a.read (min_of h.inbuf.write k) ≡ failed e
      → (common_read a h ≡ returned status_ok h [])
        ⊎ (common_read a h ≡ returned status_eof (record h { state = is_eof }) [])
  unfolding common_read
  read_failed k e f nz r = ground arith

  read_empty :
      (k : ℕ)
      → a.fionread ≡ some k
      → k ≢ 0
      → a.read (min_of h.inbuf.write k) ≡ got []
      → common_read a h ≡ returned status_eof (record h { state = is_eof }) []
  unfolding common_read
  read_empty k f nz r = ground arith

Ends-result :
    (n : ℕ) (h : CommonHandler) (m : Mode) (a : Answer) (k : ℕ)
    → 0 < n
    → Models n h m
    → Obeys n a
    → a.fionread ≡ some (suc k)
    → (r : ReadResult) → a.read (min_of h.inbuf.write (suc k)) ≡ r
    → Ends n h (common_read a h)
Ends-result n h m a k z v o f (failed e) r =
    let (open_state, free) = Models-open n h m z v in
    elim (read_failed n h a (Holds-write (Models-held n h m v) free) open_state (suc k) e f
      (omega arith) r) [
        | inl p ↦ (h, [], inl (p, (m, v), (refl, refl)))
        | inr p ↦ (record h { state = is_eof }, [], inr (p, refl, refl))
      ]
Ends-result n h m a k z v o f (got []) r =
    let (open_state, free) = Models-open n h m z v in
    (
      record h { state = is_eof },
      [],
      inr (
        read_empty n h a (Holds-write (Models-held n h m v) free) open_state (suc k) f (omega arith)
            r,
        refl,
        refl,
      ),
    )
Ends-result n h m a k z v o f (got (x ∷ xs)) r =
    let (h', p, v', fd) =
      read_refines n h m a (x ∷ xs) z v
        (record {
          ready = suc k;
          reported = f;
          some_ready = omega arith;
          result = r;
          some_read = omega arith;
          within = (o _ _ r).0;
        })
        (λ e. (o _ _ r).1) in
    (h', (feed n m (x ∷ xs)).1, inl (p, ((feed n m (x ∷ xs)).0, v'), fd))

-- Whatever ioctl() answers, and whether read() fails, is at its end or gives bytes, a read of a handler
-- in some mode ends without an abort: either it returns 0 and the handler is in some mode again, or it
-- returns -1, reports nothing and the handler is at its end. The conditions are that the buffer is not
-- of size 0, and that read() returns fewer bytes than the buffer has and no more than it is asked for.
pub read_total :
    (n : ℕ) (h : CommonHandler) (m : Mode) (a : Answer)
    → 0 < n
    → Models n h m
    → Obeys n a
    → Ends n h (common_read a h)
read_total n h m a z v o =
    let (open_state, free) = Models-open n h m z v in
    let nothing = read_nothing n h a (Holds-write (Models-held n h m v) free) open_state in
    elim (Option-cases a.fionread) [
      | inl e ↦ (record h { state = is_eof }, [], inr (nothing (inl e), refl, refl))
      | inr (k, e) ↦ some_count k e nothing
    ]
  where
    some_count :
        (k : ℕ)
        → a.fionread ≡ some k
        → ((a.fionread ≡ none) ⊎ (a.fionread ≡ some 0)
            → common_read a h ≡ returned status_eof (record h { state = is_eof }) [])
        → Ends n h (common_read a h)
    some_count zero e nothing = (record h { state = is_eof }, [], inr (nothing (inr e), refl, refl))
    some_count (suc k) e nothing =
        Ends-result n h m a k z v o e (a.read (min_of h.inbuf.write (suc k))) refl

-- A source at its end stays there: every read returns -1 and reports nothing.
pub read_eof :
    (h : CommonHandler) (a : Answer) → h.state ≡ is_eof → common_read a h ≡ returned status_eof h []
unfolding common_read
read_eof h a e = ground (arith, e)

drain-none : (k : ℕ) (b : InputBuffer) → getline b ≡ (none, b) → drain (suc k) b ≡ some ([], b)
unfolding drain
drain-none k b e = ground (arith, e)

-- the end of a long line, read to the last byte of the memory
skipped_to_end :
    (n : ℕ) (h : CommonHandler) (chunk : List ℕ)
    → 0 < n
    → Models n h skipping
    → length chunk ≡ n
    → take_line chunk ≡ some (chunk, [])
    → (h' : CommonHandler) × (after_update
          (record h { inbuf = update (store h.inbuf chunk) (length chunk) })
        ≡ returned status_ok h' [])
      × (h'.state ≡ is_ready)
      × AtEnd n h'.inbuf
unfolding after_update report_lines
skipped_to_end n h chunk z (bad, held, at, sized) e whole =
    let b = update (store h.inbuf chunk) (length chunk) in
    let (done, atend) = purged-AtEnd n h.inbuf chunk z held at sized e whole in
    let b' = (purgeline b).1 in
    let quiet = drain-none (b'.end - b'.start) b' (getline-AtEnd atend) in
    (record h { inbuf = b'; state = is_ready }, ground (arith, atend.all_free), refl, atend)

filled-AtEnd :
    (n : ℕ) (h : CommonHandler) (chunk : List ℕ)
    → h.state ≡ is_ready
    → AtEnd n h.inbuf
    → length chunk ≡ n
    → (h' : CommonHandler) × (after_update
          (record h { inbuf = update (store h.inbuf chunk) (length chunk) })
        ≡ returned status_ok h' [])
      × (h'.state ≡ is_err)
unfolding after_update report_lines
filled-AtEnd n h chunk ready at e =
    let b = update (store h.inbuf chunk) (length chunk) in
    let (missing, quiet, gone) =
      lost_after_purge h.inbuf chunk at.border_end at.current_start at.ordered
        (omega (arith, at.sized)) in
    let frame = update_frame h.inbuf chunk (length chunk) in
    let run = drain-none (b.end - b.start) b quiet in
    (record h { inbuf = (purgeline b).1; state = is_err }, ground (arith, at.all_free), refl)

-- Where a handler that skips a long line reads as many bytes as the buffer has, and these end with
-- their first newline, it reports no line; and a next read of as many bytes as the buffer has reports
-- no line either, whatever lines it has, and leaves the handler in the error state.
pub lost_lines :
    (n : ℕ) (h : CommonHandler) (a : Answer) (chunk : List ℕ)
    → 0 < n
    → Models n h skipping
    → Delivers a h chunk
    → length chunk ≡ n
    → take_line chunk ≡ some (chunk, [])
    → (h' : CommonHandler) × (common_read a h ≡ returned status_ok h' [])
      × ((a' : Answer) (chunk' : List ℕ)
          → Delivers a' h' chunk'
          → length chunk' ≡ n
          → (h'' : CommonHandler) × (common_read a' h' ≡ returned status_ok h'' [])
            × (h''.state ≡ is_err))
lost_lines n h a chunk z v d e whole =
    let (open_state, free) = Models-open n h skipping z v in
    let (w, le) = Holds-write v.1 free in
    let (h', run, ready, at) = skipped_to_end n h chunk z v e whole in
    (
      h',
      open_lem n h a chunk open_state w free d ∙ run,
      λ a' chunk' d' e'.
          let (h'', run', bad) = filled-AtEnd n h' chunk' ready at e' in
          (
            h'',
            open_lem n h' a' chunk' (λ q. cc) (omega (arith, at.all_write))
                  (omega (arith, at.all_free)) d'
                ∙ run',
            bad,
          ),
    )
