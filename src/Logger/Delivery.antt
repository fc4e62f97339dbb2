-- ===== src/Logger/Delivery.antt =====
-- The logger with deliver_message of src/output.c, which it calls at src/logger.c:121: the bytes that
-- write() took, over all messages.
use genbuf.Prelude.{
  ℕ, ◌≡◌, ◌≢◌, sym, ap, ◌∙◌, Bool, true, false, inl, inr, subst, Option, none, some, List, [], ◌∷◌,
  ◌++◌, append_assoc, append-nil, concat, length, if◌then◌else◌,
}
use genbuf.Output.Command.{World, Run, ok, aborted, out_of_fuel}
use genbuf.Output.{Env, Driver, OutputHandler, text, ends_line, common_cleanup, deliver_message}
use genbuf.Output.Write.Chunks.{Obeys, Accepts}
use genbuf.Output.Health.{deliver_message-returns}
use genbuf.Output.Text.{NoNul, text-NoNul}
use genbuf.Output.Contract.{Selects, IsDriver}
use genbuf.Output.Deliver.{deliver_message-Prefix}
use genbuf.Logger.{Msg, Calls, Logger, State, Stop, content, run}
use genbuf.Logger.Order.{until_end, Healthy, Tracks, AllFit, Kept}
use genbuf.Logger.Start.{run-Kept}

-- a destination: its handler, and the world that its writes change
abbrev pub Outlet : Type 0
Outlet = OutputHandler × World

-- what the logger sees of a run
unfoldable pub outcome : Run (Bool × OutputHandler) → Option (Bool × Outlet)
outcome (ok (done, h) w) = some (done, (h, w))
outcome aborted = none
outcome out_of_fuel = none

-- The calls of the logger with deliver_message, in four rounds of its loop. What it gets of a message are
-- the bytes before the first NUL.
unfoldable pub with_output : Env → Driver → Calls Outlet → Calls Outlet
with_output env drv c = record c {
  deliver = λ t o msg. outcome (deliver_message env drv 4 o.0 (text msg) o.1);
}

-- logger_cleanup, where the destination is set and where it is not
unfoldable pub cleanup : Driver → Logger Outlet → Option (Run OutputHandler)
cleanup drv l = elim l.dest [ none ↦ none | some (h, w) ↦ some (common_cleanup drv h w) ]

-- a line that is not empty, without a byte 0
abbrev pub IsLine : Msg → Type 0
IsLine msg = (ends_line msg ≡ true) × (length msg ≢ 0) × NoNul msg

-- The bytes sent are those of the messages delivered.
abbrev pub Wrote : (OutputHandler → Type 0) → List ℕ → List Msg → Outlet → Type 0
Wrote inv before ds o = inv o.0 × (o.1.sent ≡ before ++ concat ds)

pub concat-snoc : (ds : List Msg) (m : Msg) → concat (ds ++ m ∷ []) ≡ concat ds ++ m
concat-snoc [] m = append-nil m
concat-snoc (d ∷ ds) m = ap (λ xs. d ++ xs) (concat-snoc ds m) ∙ sym (append_assoc d (concat ds) m)

-- the handler of a run that ends, and another for any other run
abbrev handler_of : OutputHandler → Run (Bool × OutputHandler) → OutputHandler
handler_of h (ok (done, h') w) = h'
handler_of h aborted = h
handler_of h out_of_fuel = h

sent_so_far :
    (done : Bool) (before : List ℕ) (ds : List Msg) (m : Msg) (sent sent' : List ℕ)
    → sent ≡ before ++ concat ds
    → sent' ≡ (if done then sent ++ m else sent)
    → sent' ≡ before ++ concat (if done then ds ++ m ∷ [] else ds)
sent_so_far true before ds m sent sent' e e' =
    e'
    ∙ (ap (λ xs. xs ++ m) e
        ∙ (append_assoc before (concat ds) m ∙ ap (λ xs. before ++ xs) (sym (concat-snoc ds m))))
sent_so_far false before ds m sent sent' e e' = e' ∙ e

module _ (env : Env) (drv : Driver) (inv : OutputHandler → Type 0) (o : Obeys env) (a : Accepts env)
    (s : Selects env) (v : IsDriver inv drv)
    (three : (h : OutputHandler) → inv h → h.retry ≡ 3) where
  inv_after :
      (h h' : OutputHandler) (msg : Msg) (w w' : World) (done : Bool)
      → inv h
      → (ends_line msg ≡ true) × (length msg ≢ 0)
      → deliver_message env drv 4 h msg w ≡ ok (done, h') w'
      → inv h'
  inv_after h h' msg w w' done i (line, nz) ran =
      elim (deliver_message-Prefix env drv inv 4 h msg w o s v line nz i) [
        | inl stuck ↦ absurd (cc)
        | inr (done', h2, w2, k, ran', i', _, _, _) ↦
            subst inv (ap (handler_of h) (sym ran' ∙ ran)) i'
      ]

  delivers-Wrote :
      (before : List ℕ) (t : ℕ) (out : Outlet) (m : Msg) (ds : List Msg) (c : Calls Outlet)
      → Wrote inv before ds out
      → IsLine m
      → (b : Bool) × (out' : Outlet) × ((with_output env drv c).deliver t out m ≡ some (b, out'))
        × Wrote inv before (if b then ds ++ m ∷ [] else ds) out'
  unfolding with_output outcome
  delivers-Wrote before t (h, w) m ds c (i, e) (line, nz, whole) =
      let (done, h', w', ran, sent) =
        deliver_message-returns env drv inv h m w o a s v line nz (three h i) i in
      (
        done,
        (h', w'),
        rw (text-NoNul m whole) (ap outcome ran),
        (
          inv_after h h' m w w' done i (line, nz) ran,
          sent_so_far done before ds m w.sent w'.sent e sent,
        ),
      )

  output-Tracks :
      (before : List ℕ) (c : Calls Outlet)
      → Tracks IsLine (Wrote inv before) (with_output env drv c)
  output-Tracks before c = record {
    delivers = λ t out m ds r f. delivers-Wrote before t out m ds c r f;
  }

pub output-Healthy :
    (env : Env) (drv : Driver) (c : Calls Outlet) → Healthy c → Healthy (with_output env drv c)
unfolding with_output
output-Healthy env drv c v = record {
  reads = v.reads;
  appends = v.appends;
  puts = v.puts;
  lines = v.lines;
  truncates = v.truncates;
}

-- The logger with deliver_message, where write() always takes a byte at least and no more than it is
-- given: whichever deliveries time out, the bytes sent are those of the messages delivered, whole and
-- in order, behind what was sent before; and of the messages none is lost, as for any delivery that
-- returns. The conditions are that each message of the old backlog and of the queue is a line without a byte 0, that the
-- output is a driver with an invariant that holds of the handler and gives it three tries, that
-- select() reports no descriptor that is not waited for, and the handler's where it reports any, that
-- the files can be opened, read, written and truncated, and no backlog where no file is named.
pub run-Wrote :
    (env : Env) (drv : Driver) (inv : OutputHandler → Type 0) (c : Calls Outlet) (rounds : ℕ)
    (l : Logger Outlet) (h : OutputHandler) (w : World) (queue : List (Option Msg))
    (file : Option (List Msg))
    → Obeys env
    → Accepts env
    → Selects env
    → IsDriver inv drv
    → ((h' : OutputHandler) → inv h' → h'.retry ≡ 3)
    → inv h
    → Healthy c
    → l.dest ≡ some (h, w)
    → AllFit IsLine (content file ++ until_end queue)
    → (l.backlog_file ≡ none → content file ≡ [])
    → (stop : Stop) × (s : State Outlet) × (run (with_output env drv c) rounds l queue file
        ≡ some (stop, s))
      × Kept (content file ++ until_end queue) stop s
      × (s.dest.1.sent ≡ w.sent ++ concat s.delivered)
run-Wrote env drv inv c rounds l h w queue file o a s v three i healthy dest all n =
    let (stop, t, ran, kept, related) =
      run-Kept (with_output env drv c) IsLine (Wrote inv w.sent) rounds l (h, w) queue file
        (output-Healthy env drv c healthy) (output-Tracks env drv inv o a s v three w.sent c) dest
        (i, sym (append-nil w.sent)) all n in
    (stop, t, ran, kept, related.1)
