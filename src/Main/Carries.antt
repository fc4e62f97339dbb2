-- ===== src/Main/Carries.antt =====
-- The whole program, from the streams of its sources to the bytes at its destination: run of
-- src/main.c with the common handlers of src/input_tools.c, the loop of src/reader.c, the logger of
-- src/logger.c and deliver_message of src/output.c.
mod Tests
use genbuf.Prelude.{
  ℕ, suc, ◌+◌, ◌<◌, ◌≤◌, ◌≡◌, ◌≢◌, refl, sym, ap, ◌∙◌, true, inl, inr, some, none, Option, List, [],
  ◌∷◌, ◌++◌, append-nil, append_assoc, arith, length, length-append, concat,
}
use genbuf.InputTools.{max_msg_size}
use genbuf.Output.Command.{World, ok}
use genbuf.Output.{Env, Driver, OutputHandler, deliver_message}
use genbuf.Output.Write.Chunks.{Obeys, Accepts}
use genbuf.Output.Contract.{Selects, IsDriver}
use genbuf.Output.Prompt.{IsPrompt, IsOpen, deliver_message-sends}
use genbuf.Logger.{Msg, Calls, Logger, State, ended, content}
use genbuf.Logger.Order.{Healthy, Tracks, AllFit}
use genbuf.Logger.Live.{Delivers}
use genbuf.Logger.Delivery.{
  Outlet, IsLine, Wrote, with_output, outcome, output-Healthy, concat-snoc,
}
use genbuf.Output.Text.{text-NoNul}
use genbuf.Reader
use genbuf.Reader.{Source, Kernel}
use genbuf.Reader.Ends.{All}
use genbuf.Reader.Merge.{Merge}
use genbuf.Reader.Merge.Run.{Wakes}
use genbuf.Reader.Pipes.{Pipe, InReach, IsNew, piped_kind, short_lines, total_load, run-merges}
use genbuf.Main.Lines.{HasText, Merge-Lines}
use genbuf.Main.Threads.{joined, run, run-joined}

AllFit-append :
    (fits : Msg → Type 0) (xs ys : List Msg)
    → AllFit fits xs
    → AllFit fits ys
    → AllFit fits (xs ++ ys)
AllFit-append fits [] ys v w = w
AllFit-append fits (x ∷ xs) ys (v, vs) w = (v, AllFit-append fits xs ys vs w)

module _ (env : Env) (drv : Driver) (inv : OutputHandler → Type 0) (o : Obeys env) (a : Accepts env)
    (s : Selects env) (v : IsDriver inv drv) (prompt : IsPrompt inv env drv)
    (three : (h : OutputHandler) → inv h → h.retry ≡ 3) where
  -- a message is sent behind those before it
  sends-Wrote :
      (before : List ℕ) (t : ℕ) (out : Outlet) (m : Msg) (ds : List Msg) (c : Calls Outlet)
      → Wrote (IsOpen inv) before ds out
      → IsLine m
      → (out' : Outlet) × ((with_output env drv c).deliver t out m ≡ some (true, out'))
        × Wrote (IsOpen inv) before (ds ++ m ∷ []) out'
  unfolding with_output outcome
  sends-Wrote before t (h, w) m ds c (i, e) (line, nz, whole) =
      let (h', w', ran, sent, up) =
        deliver_message-sends env drv inv 3 h m w o a s v prompt line nz
          (omega (arith, three h i.0)) i in
      (
        (h', w'),
        rw (text-NoNul m whole) (ap outcome ran),
        (
          up,
          sent
              ∙ (ap (λ xs. xs ++ m) e
                  ∙ (append_assoc before (concat ds) m
                      ∙ ap (λ xs. before ++ xs) (sym (concat-snoc ds m)))),
        ),
      )

  sends-Tracks :
      (before : List ℕ) (c : Calls Outlet)
      → Tracks IsLine (Wrote (IsOpen inv) before) (with_output env drv c)
  sends-Tracks before c = record {
    delivers = λ t out m ds r f.
        let (out', ran, wrote) = sends-Wrote before t out m ds c r f in (true, out', ran, wrote);
  }

  sends-Delivers :
      (before : List ℕ) (c : Calls Outlet)
      → Delivers IsLine (Wrote (IsOpen inv) before) (with_output env drv c)
  sends-Delivers before c t out m ds r f =
      let (out', ran, _) = sends-Wrote before t out m ds c r f in (out', ran)

-- The program with any number of new sources, each with a stream of its own, and a destination that is
-- ready each time: both threads end, and the bytes sent are those of the old backlog and behind them
-- those of the sources' lines of at most a million bytes with the newline, each line whole and once,
-- those of one source in order, and nothing else. The conditions are that no stream holds a byte 0;
-- that a read finds a byte at least
-- and less than a million; that the reader's select() does not fail and reports a source at least;
-- that write() takes a byte at least and no more than it is given; that the output is a driver with an
-- invariant that holds of the handler and gives it three tries, and its select() reports the handler's
-- descriptor, and none that is not waited for; that the files of the logger work, the old backlog is of
-- lines without a byte 0, and it is empty where no file is named; and rounds and turns for each byte.
pub run-carries :
    (kernel : Kernel) (readies : ℕ → ℕ) (reads : ℕ) (sources : List (Source Pipe)) (env : Env)
    (drv : Driver) (inv : OutputHandler → Type 0) (c : Calls Outlet) (turns : ℕ) (l : Logger Outlet)
    (h : OutputHandler) (w : World) (file : Option (List Msg))
    → InReach max_msg_size readies
    → Wakes kernel
    → All IsNew sources
    → All HasText sources
    → total_load sources + 2 < reads
    → Obeys env
    → Accepts env
    → Selects env
    → IsDriver inv drv
    → IsPrompt inv env drv
    → ((h' : OutputHandler) → inv h' → h'.retry ≡ 3)
    → IsOpen inv h
    → Healthy c
    → l.dest ≡ some (h, w)
    → AllFit IsLine (content file)
    → (l.backlog_file ≡ none → content file ≡ [])
    → length (content file) + total_load sources < turns
    → (st : State Outlet) × (lines : List Msg) × (run kernel
          (piped_kind readies)
          reads
          (record Reader.init { sources = sources })
          (with_output env drv c)
          turns
          l
          file
        ≡ joined (some (ended, st)))
      × Merge (short_lines sources) lines
      × (st.dest.1.sent ≡ w.sent ++ concat (content file ++ lines))
run-carries kernel readies reads sources env drv inv c turns l h w file reach wakes new texts enough
      o a s v prompt three i healthy dest old none_old less =
    let (r, ran, _, merged) = run-merges kernel readies reads sources reach wakes new enough in
    let (fit, few) = Merge-Lines sources r.queue texts merged in
    let (st, ended_run, all, related) =
      run-joined kernel (piped_kind readies) reads (record Reader.init { sources = sources }) r
        (with_output env drv c) IsLine (Wrote (IsOpen inv) w.sent) turns l (h, w) file (inl ran)
        (output-Healthy env drv c healthy) (sends-Tracks env drv inv o a s v prompt three w.sent c)
        (sends-Delivers env drv inv o a s v prompt three w.sent c) dest (i, sym (append-nil w.sent))
        (AllFit-append IsLine (content file) r.queue old fit) none_old
        (omega (arith, length-append (content file) r.queue)) in
    (st, r.queue, ended_run, merged, related.1 ∙ ap (λ ds. w.sent ++ concat ds) all)
