-- ===== src/InputTools/Stream.antt =====
-- A whole stream through `input_handler_common_read`, however the kernel divides it.
use genbuf.Prelude.{
  ℕ, ◌≤◌, ◌<◌, ◌≡◌, refl, sym, ap, ◌∙◌, List, [], ◌∷◌, ◌++◌, arith, length, Option, none, some,
  take, drop, length-take, length-drop, take-append-drop,
}
use genbuf.Sys.{got}
use genbuf.InputBuffer.{min_of}
use genbuf.InputBuffer.Health.{create-Holds}
use genbuf.InputTools.{
  CommonHandler, Answer, returned, aborted, out_of_fuel, status_ok, max_msg_size, init, common_read,
}
use genbuf.InputTools.Assembler.{Mode, collecting, feed, feed-append, split_lines}
use genbuf.InputTools.Kept.{short, feed-short, take_line-nil}
use genbuf.InputTools.Refine.{Models, Delivers, Models-write, read_refines}

-- The kernel has up to `ready` bytes of the stream at hand, and hands over all that it is asked for.
abbrev pub answer : ℕ → List ℕ → Answer
answer ready stream = record {
  fionread = some (min_of ready (length stream));
  read = λ n. got (take n stream);
}

abbrev pub moved : ℕ → CommonHandler → List ℕ → ℕ
moved ready h stream = min_of h.inbuf.write (min_of ready (length stream))

-- reads until the stream is at its end, each with the next entry of `readies`
pub pump : List ℕ → CommonHandler → List ℕ → Option (CommonHandler × List (List ℕ))
pump readies h [] = some (h, [])
pump [] h (c ∷ cs) = none
pump (k ∷ ks) h (c ∷ cs) = elim (common_read (answer k (c ∷ cs)) h) [
  | returned status h' lines ↦ elim status [
    | status_ok ↦ elim (pump ks h' (drop (moved k h (c ∷ cs)) (c ∷ cs))) [
      | none ↦ none
      | some (h'', more) ↦ some (h'', lines ++ more)
    ]
    | _ ↦ none
  ]
  | aborted ↦ none
  | out_of_fuel ↦ none
]

-- each entry is positive and below the size of the buffer
abbrev pub AllReady : ℕ → List ℕ → Type 0
AllReady n [] = Unit {0}
AllReady n (k ∷ ks) = (0 < k) × (k < n) × AllReady n ks

pump-step :
    (ks : List ℕ) (h : CommonHandler) (k c : ℕ) (cs : List ℕ) {h' h'' : CommonHandler}
    {lines more : List (List ℕ)}
    → common_read (answer k (c ∷ cs)) h ≡ returned status_ok h' lines
    → pump ks h' (drop (moved k h (c ∷ cs)) (c ∷ cs)) ≡ some (h'', more)
    → pump (k ∷ ks) h (c ∷ cs) ≡ some (h'', lines ++ more)
unfolding pump
pump-step ks h k c cs run go = rw (run, pump) (rw (go, pump))

pub feed-nil : (n : ℕ) (m : Mode) → feed n m [] ≡ (m, [])
unfolding feed
feed-nil n m = refl

module _ (n : ℕ) (z : 0 < n) where
  pub answer-Delivers :
      (h : CommonHandler) (k c : ℕ) (cs : List ℕ)
      → 0 < h.inbuf.write
      → 0 < k
      → Delivers (answer k (c ∷ cs)) h (take (moved k h (c ∷ cs)) (c ∷ cs))
  answer-Delivers h k c cs w p =
      let t = length-take (moved k h (c ∷ cs)) (c ∷ cs) in
      record {
        ready = min_of k (length (c ∷ cs));
        reported = refl;
        some_ready = ground arith;
        result = refl;
        some_read = ground arith;
        within = ground arith;
      }

  -- Fed with a whole stream in any number of reads, each of fewer bytes than the buffer has, the
  -- handler reports the lines that the assembler reports of the stream at once, and no read fails.
  pub pump_refines :
      (ks : List ℕ) (h : CommonHandler) (m : Mode) (stream : List ℕ)
      → Models n h m
      → AllReady n ks
      → length stream ≤ length ks
      → (h' : CommonHandler) × (pump ks h stream ≡ some (h', (feed n m stream).1))
        × Models n h' (feed n m stream).0
  unfolding pump
  pump_refines ks h m [] v a l = rw (feed-nil n m) (h, refl, v)
  pump_refines [] h m (c ∷ cs) v a l = absurd (omega arith)
  pump_refines (k ∷ ks) h m (c ∷ cs) v a l =
      let w = Models-write n h m z v in
      let s : List ℕ = c ∷ cs in
      let j = moved k h s in
      let d = answer-Delivers h k c cs w a.0 in
      let t = length-take j s in
      let r = length-drop j s in
      let (h', run, v', fd) =
        read_refines n h m (answer k s) (take j s) z v d (λ e. ground arith) in
      let (h'', go, v'') =
        pump_refines ks h' (feed n m (take j s)).0 (drop j s) v' a.2 (ground arith) in
      let whole : feed n m s ≡ (
        (feed n (feed n m (take j s)).0 (drop j s)).0,
        (feed n m (take j s)).1 ++ (feed n (feed n m (take j s)).0 (drop j s)).1,
      ) =
        ap (feed n m) (sym (take-append-drop j s)) ∙ feed-append n m (take j s) (drop j s) in
      rw whole (h'', pump-step ks h k c cs run go, v'')

pub init-Models :
    (fd address : ℕ) (garbage : List ℕ)
    → length garbage ≡ max_msg_size
    → Models max_msg_size (init fd address garbage) (collecting [])
unfolding init
init-Models fd address garbage e = (
  refl,
  (create-Holds max_msg_size address garbage (omega arith) e).0,
  take_line-nil,
  omega arith,
  (create-Holds max_msg_size address garbage (omega arith) e).2,
)

-- From its creation on a handler reports exactly the complete lines of its stream that have at most
-- a million bytes with their newline, unchanged and in order, however the kernel divides the stream
-- into reads, if no read is of a million bytes or more and there is a read for each byte.
pub pump-short :
    (fd address : ℕ) (garbage ks stream : List ℕ)
    → length garbage ≡ max_msg_size
    → AllReady max_msg_size ks
    → length stream ≤ length ks
    → (h : CommonHandler) × (pump ks (init fd address garbage) stream
        ≡ some (h, short max_msg_size (split_lines stream).0))
pump-short fd address garbage ks stream e a l =
    let (h, run, v) =
      pump_refines max_msg_size (omega arith) ks (init fd address garbage) (collecting []) stream
        (init-Models fd address garbage e) a l in
    (
      h,
      rw
          (← feed-short max_msg_size (collecting []) [] stream (omega arith)
            (refl, omega arith, take_line-nil))
          run,
    )
