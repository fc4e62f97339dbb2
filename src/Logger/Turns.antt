-- ===== src/Logger/Turns.antt =====
-- The rounds of the loop of logger_run, one delivery in each.
use genbuf.Prelude.{
  ℕ, zero, suc, ◌≡◌, refl, sym, ap, ◌∙◌, Bool, true, false, inl, inr, subst, Option, none, some,
  List, [], ◌∷◌, ◌++◌, append-nil, if◌then◌else◌,
}
use genbuf.Logger.{
  Msg, Calls, State, Turn, goes, stops, on_delivery, sent, unsent, turn_with, turn, run_loop,
}
use genbuf.Logger.Order.{
  until_end, saved, list_of, pending, Healthy, Tracks, AllFit, AllFit-middle, IsValid, Kept, Keeps,
}
use genbuf.Logger.Conserve.{Turn-cases, pending-at, on_delivery-Keeps}
use genbuf.Logger.Dest.{AtTurn, sent-At, unsent-At}

-- the relation between destination and deliveries, behind a turn
abbrev pub Tracked : {H : Type 0} → (List Msg → H → Type 0) → Turn H → Type 0
Tracked rel (goes s) = rel s.delivered s.dest
Tracked rel (stops e s) = rel s.delivered s.dest

pub AtTurn-Tracked :
    {H : Type 0} (rel : List Msg → H → Type 0) (h : H) (ds : List Msg) (t : Turn H)
    → AtTurn h ds t
    → rel ds h
    → Tracked rel t
AtTurn-Tracked rel h ds (goes s) (a, b) r = rw (a, b) r
AtTurn-Tracked rel h ds (stops e s) (a, b) r = rw (a, b) r

module _ {H : Type 0} (c : Calls H) (v : Healthy c) (fits : Msg → Type 0)
    (rel : List Msg → H → Type 0) (tr : Tracks fits rel c) (total : List Msg)
    (all : AllFit fits total) where
  pub current-fits :
      (s : State H) (m : Msg) → s.msg ≡ some m → s.delivered ++ pending s ≡ total → fits m
  current-fits s m e l = AllFit-middle fits s.delivered m (saved s ++ until_end s.queue) (
      subst (AllFit fits)
        (sym (
          sym (ap (λ x. s.delivered ++ (list_of x ++ (saved s ++ until_end s.queue))) e)
          ∙ (sym (pending-at c v total s (some m) e) ∙ l)))
        all)

  on_delivery-Tracked :
      (s : State H) (m : Msg) (b : Bool) (h : H)
      → rel (if b then s.delivered ++ m ∷ [] else s.delivered) h
      → Tracked rel (on_delivery c m s (some (b, h)))
  unfolding on_delivery
  on_delivery-Tracked s m true h r =
      let ds = s.delivered ++ m ∷ [] in
      let s' = record s { dest = h; msg = none; delivered = ds; clock = suc s.clock } in
      AtTurn-Tracked rel h ds (sent c s') (sent-At c h ds s' (refl, refl)) r
  on_delivery-Tracked s m false h r =
      let s' = record s { dest = h; clock = suc s.clock } in
      AtTurn-Tracked rel h s.delivered (unsent c m s') (unsent-At c h s.delivered m s' (refl, refl))
        r

  pub turn-Keeps :
      (s : State H) (x : Option Msg)
      → s.msg ≡ x
      → IsValid s
      → s.delivered ++ pending s ≡ total
      → rel s.delivered s.dest
      → Keeps total (turn_with c s x) × Tracked rel (turn_with c s x)
  unfolding turn_with
  turn-Keeps s none e i l r =
      (sym (append-nil s.delivered) ∙ (sym (pending-at c v total s none e) ∙ l), r)
  turn-Keeps s (some m) e i l r =
      let (b, h, d, r') = tr.delivers s.clock s.dest m s.delivered r (current-fits s m e l) in
      rw d (
        on_delivery-Keeps c v total s m b h e i (sym (pending-at c v total s (some m) e) ∙ l),
        on_delivery-Tracked s m b h r',
      )

  pub run_loop-Kept :
      (rounds : ℕ) (s : State H)
      → IsValid s
      → s.delivered ++ pending s ≡ total
      → rel s.delivered s.dest
      → let r = run_loop c rounds s in Kept total r.0 r.1 × rel r.1.delivered r.1.dest
  unfolding run_loop turn
  run_loop-Kept zero s i l r = ((i, l), r)
  run_loop-Kept (suc rounds) s i l r =
      let kept = turn-Keeps s s.msg refl i l r in
      elim (Turn-cases (turn c s)) [
        | inl (s', e) ↦
            let ((i', l'), r') = rw e at kept in rw (e, run_loop) (run_loop-Kept rounds s' i' l' r')
        | inr (stop, s', e) ↦ rw (e, run_loop) (rw e at kept)
      ]
