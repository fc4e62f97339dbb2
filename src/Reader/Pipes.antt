-- ===== src/Reader/Pipes.antt =====
-- The reader with common handlers, each with the stream that comes in at its descriptor.
use genbuf.Prelude.{
  ℕ, ◌+◌, ◌<◌, ◌≡◌, refl, sym, ap, ◌∙◌, ◌⊎◌, inl, inr, subst, none, some, List, [], ◌∷◌, ◌++◌,
  arith, length, take, drop, length-take, length-drop, take-append-drop, Option,
}
use genbuf.InputTools.{
  CommonHandler, status_ok, status_eof, is_eof, max_msg_size, common_read, returned,
}
use genbuf.InputTools.Assembler.{Mode, collecting, feed, feed-append, split_lines}
use genbuf.InputTools.Kept.{short, feed-short, take_line-nil}
use genbuf.InputTools.Refine.{Models, Models-write, read_refines}
use genbuf.InputTools.Stream.{answer, moved, answer-Delivers, feed-nil, init-Models}
use genbuf.Reader
use genbuf.InputTools
use genbuf.Reader.{Source, Reading, Kind, Kernel, Reader, common_kind, ends, run}
use genbuf.Reader.Ends.{All}
use genbuf.Reader.Common.{common_kind-eof, common_kind-returned}
use genbuf.Reader.Merge.{Merge, Yields, Pends, load}
use genbuf.Reader.Merge.Run.{Wakes, run-Runs}

pub record Pipe : Type 0 where
  pub handler : CommonHandler
  pub stream : List ℕ

-- a read takes its bytes from the stream
unfoldable pub take_stream : ℕ → Pipe → Option (Reading CommonHandler) → Option (Reading Pipe)
take_stream ready p none = none
take_stream ready p (some r) = some (record {
  status = r.status;
  handler = record { handler = r.handler; stream = drop (moved ready p.handler p.stream) p.stream };
  lines = r.lines;
  added = [];
})

-- The kernel has up to `readies t` bytes at hand at the read number `t`.
unfoldable pub piped_kind : (ℕ → ℕ) → Kind Pipe
piped_kind readies t p =
    take_stream (readies t) p (common_kind (λ _. answer (readies t) p.stream) t p.handler)

-- at hand there is a byte at least, and less than a buffer of `n` bytes has
abbrev pub InReach : ℕ → (ℕ → ℕ) → Type 0
InReach n readies = (t : ℕ) → (0 < readies t) × (readies t < n)

-- the lines that a source will report
abbrev pub Pending : ℕ → Pipe → List (List ℕ) → Type 0
Pending n p l = (m : Mode) × Models n p.handler m × (l ≡ (feed n m p.stream).1)

module _ (n : ℕ) (z : 0 < n) (readies : ℕ → ℕ) (reach : InReach n readies) where
  abbrev YieldsAt : ℕ → CommonHandler → List ℕ → List (List ℕ) → Type 0
  YieldsAt t h stream l =
      (r : Reading Pipe) × (piped_kind readies t (record { handler = h; stream = stream }) ≡ some r)
      × (r.added ≡ [])
      × (((r.status ≡ status_ok)
            × ((more : List (List ℕ)) × Pending n r.handler more
                × (l ≡ r.lines ++ more)
                × (length r.handler.stream < length stream)))
          ⊎ ((r.status ≡ status_eof) × (r.lines ≡ []) × (l ≡ [])))

  stream_over :
      (t : ℕ) (h : CommonHandler) (m : Mode) → Models n h m → YieldsAt t h [] (feed n m []).1
  unfolding piped_kind take_stream
  stream_over t h m v = (
    _,
    ap (take_stream (readies t) (record { handler = h; stream = [] }))
        (common_kind-eof n t h m (λ _. answer (readies t) []) z v (ground arith)),
    refl,
    inr (refl, refl, ap (λ x. x.1) (feed-nil n m)),
  )

  stream_read :
      (t : ℕ) (h : CommonHandler) (m : Mode) (c : ℕ) (cs : List ℕ)
      → Models n h m
      → YieldsAt t h (c ∷ cs) (feed n m (c ∷ cs)).1
  unfolding piped_kind take_stream
  stream_read t h m c cs v =
      let w = Models-write n h m z v in
      let s : List ℕ = c ∷ cs in
      let j = moved (readies t) h s in
      let len = length-take j s in
      let rest = length-drop j s in
      let (h', ran, v', _) =
        read_refines n h m (answer (readies t) s) (take j s) z v
          (answer-Delivers n z h (readies t) c cs w (reach t).0)
          (λ e. ground (arith, (reach t).1)) in
      (
        _,
        ap (take_stream (readies t) (record { handler = h; stream = s }))
            (common_kind-returned (λ _. answer (readies t) s) t h h' (feed n m (take j s)).1 ran),
        refl,
        inl (
          refl,
          (
            (feed n (feed n m (take j s)).0 (drop j s)).1,
            ((feed n m (take j s)).0, v', refl),
            ap (λ x. (feed n m x).1) (sym (take-append-drop j s))
                ∙ ap (λ x. x.1) (feed-append n m (take j s) (drop j s)),
            ground (arith, (reach t).0),
          ),
        ),
      )

  yields_at :
      (t : ℕ) (h : CommonHandler) (m : Mode) (stream : List ℕ)
      → Models n h m
      → YieldsAt t h stream (feed n m stream).1
  yields_at t h m [] v = stream_over t h m v
  yields_at t h m (c ∷ cs) v = stream_read t h m c cs v

  piped_kind-Yields : Yields (Pending n) (λ p. length p.stream) (piped_kind readies)
  piped_kind-Yields t p l (m, v, e) =
      subst (YieldsAt t p.handler p.stream) (sym e) (yields_at t p.handler m p.stream v)

  -- The reader with sources whose handlers are in some mode: it queues a merge of their lines.
  pub piped_kind-Runs :
      (kernel : Kernel) (rounds : ℕ) (r : Reader Pipe) (ls : List (List (List ℕ)))
      → Wakes kernel
      → Pends (Pending n) r.sources ls
      → load (λ p. length p.stream) r.sources + 2 < rounds
      → (r' : Reader Pipe) × (lines : List (List ℕ)) × (run kernel (piped_kind readies) rounds r
          ≡ ends r')
        × (r'.sources ≡ [])
        × (r'.queue ≡ r.queue ++ lines)
        × Merge ls lines
  piped_kind-Runs kernel rounds r ls wakes v k =
      run-Runs (Pending n) (λ p. length p.stream) (piped_kind readies) piped_kind-Yields kernel
        rounds r ls wakes v (ground arith)

-- the handler as it is created
abbrev pub IsNew : Pipe → Type 0
IsNew p =
    (fd : ℕ) × (address : ℕ) × (garbage : List ℕ) × (length garbage ≡ max_msg_size)
    × (p.handler ≡ InputTools.init fd address garbage)

-- the lines of each source that a buffer has room for
unfoldable pub short_lines : List (Source Pipe) → List (List (List ℕ))
short_lines [] = []
short_lines (s ∷ rest) = short max_msg_size (split_lines s.handler.stream).0 ∷ short_lines rest

new-Pending :
    (p : Pipe) → IsNew p → Pending max_msg_size p (short max_msg_size (split_lines p.stream).0)
new-Pending p (fd, address, garbage, e, same) = (
  collecting [],
  subst (λ h. Models max_msg_size h (collecting [])) (sym same) (init-Models fd address garbage e),
  sym (
      feed-short max_msg_size (collecting []) [] p.stream (omega arith)
        (refl, omega arith, take_line-nil)),
)

new-Pends :
    (sources : List (Source Pipe))
    → All IsNew sources
    → Pends (Pending max_msg_size) sources (short_lines sources)
unfolding All Pends short_lines
new-Pends [] v = tt
new-Pends (s ∷ rest) (v, vs) = (new-Pending s.handler v, new-Pends rest vs)

-- the bytes of all streams, and one more for each
abbrev pub total_load : List (Source Pipe) → ℕ
total_load sources = load (λ p. length p.stream) sources

-- The reader with any number of new sources on common handlers, each with a stream of its own: it
-- reads them all up to their end, and what it queues is a merge of their lines of at most a million
-- bytes with the newline, those of one source in order, however the kernel divides the streams into
-- reads and in whichever order select() reports the sources. The conditions are that a read finds a
-- byte at least and less than a million, that select() does not fail and reports a source at least, and
-- rounds for each byte and each source and three more.
pub run-merges :
    (kernel : Kernel) (readies : ℕ → ℕ) (rounds : ℕ) (sources : List (Source Pipe))
    → InReach max_msg_size readies
    → Wakes kernel
    → All IsNew sources
    → total_load sources + 2 < rounds
    → (r : Reader Pipe) × (run kernel
          (piped_kind readies)
          rounds
          (record Reader.init { sources = sources })
        ≡ ends r)
      × (r.sources ≡ [])
      × Merge (short_lines sources) r.queue
unfolding Reader.init
run-merges kernel readies rounds sources reach wakes v k =
    let (r, lines, ran, none_left, q, m) =
      piped_kind-Runs max_msg_size (omega arith) readies reach kernel rounds
        (record Reader.init { sources = sources }) (short_lines sources) wakes (new-Pends sources v)
        k in
    (r, ran, none_left, subst (Merge (short_lines sources)) (sym q) m)
