-- ===== src/Logger/Moved.antt =====
-- The moves of the logger between the queue and the backlog: each keeps what is held, in order.
use genbuf.Prelude.{
  false, ℕ, zero, suc, ◌≤◌, ◌≡◌, refl, sym, ap, ◌∙◌, true, inl, inr, ◌⊎◌, subst, Option, none, some,
  List, [], ◌∷◌, ◌++◌, append_assoc, append-nil, arith, length, length-append, drop,
}
use genbuf.Logger.{
  Msg, Calls, State, crashed, content, Wrote, wrote_all, wrote_end, wrote_failed, wrote_waits,
  wrote_aborts, write_loop, write_open, write_backlog, tick, append_line,
}
use genbuf.Logger.Order.{until_end, list_of, saved, held, Healthy, Kept, drop-append_right}

-- the file has `k` lines at least, is read from a place among them, and is open for writing
pub record AtPlace {H : Type 0} (p k : ℕ) (s : State H) : Type 0 where
  pub place : s.backlog_in ≡ some p
  pub before : p ≤ k
  pub long : k ≤ length (content s.file)
  pub open_out : s.backlog_out ≡ true

abbrev pub Left : {H : Type 0} → List Msg → State H → Type 0
Left total s = s.delivered ++ held s ≡ total

-- what a write of the queue to the backlog comes to
abbrev pub Moved : {H : Type 0} → ℕ → ℕ → List Msg → Option Msg → Wrote H → Type 0
Moved p k total m (wrote_all s) = AtPlace p k s × (s.msg ≡ m) × Left total s
Moved p k total m (wrote_end s) = (s.backlog_out ≡ false) × Kept total crashed s
Moved p k total m (wrote_waits s) = Left total s
Moved p k total m (wrote_failed s) = ⊥
Moved p k total m (wrote_aborts s) = ⊥

append_line-held :
    {H : Type 0} (p k : ℕ) (s : State H) (m : Msg) (q : List (Option Msg))
    → AtPlace p k s
    → s.queue ≡ some m ∷ q
    → AtPlace p k (append_line (record s { queue = q; clock = suc s.clock }) m)
      × (held (append_line (record s { queue = q; clock = suc s.clock }) m) ≡ held s)
append_line-held p k s m q a e = (
  record {
    place = a.place;
    before = a.before;
    long = omega (arith, a.long, length-append (content s.file) (m ∷ []));
    open_out = a.open_out;
  },
  ap (λ l. list_of s.msg ++ l)
      (rw
        (
          a.place,
          e,
          drop-append_right p (content s.file) (m ∷ []) (omega (arith, a.before, a.long)),
        )
        (append_assoc (drop p (content s.file)) (m ∷ []) (until_end q))),
)

-- the end mark was taken: the current message and the file have all that is left
held-end :
    {H : Type 0} (total : List Msg) (s : State H) (q : List (Option Msg))
    → s.queue ≡ none ∷ q
    → Left total s
    → Kept total crashed (record s { queue = q })
held-end total s q e l =
    subst (λ l. s.delivered ++ (list_of s.msg ++ l) ≡ total)
      (ap (λ u. saved s ++ until_end u) e ∙ append-nil (saved s)) l

pub queue_cases :
    (q : List (Option Msg))
    → (q ≡ [])
      ⊎ ((rest : List (Option Msg)) × (q ≡ none ∷ rest))
      ⊎ ((m : Msg) × (rest : List (Option Msg)) × (q ≡ some m ∷ rest))
queue_cases [] = inl refl
queue_cases (none ∷ q) = inr (inl (q, refl))
queue_cases (some m ∷ q) = inr (inr (m, q, refl))

pub write_loop-Moved :
    {H : Type 0} (c : Calls H) (p k n : ℕ) (total : List Msg) (s : State H)
    → Healthy c
    → AtPlace p k s
    → Left total s
    → Moved p k total s.msg (write_loop c n s)
unfolding write_loop
write_loop-Moved c p k zero total s v a l = (a, refl, l)
write_loop-Moved c p k (suc n) total s v a l = elim (queue_cases s.queue) [
  | inl e ↦ rw (e, write_loop) l
  | inr (inl (q, e)) ↦ rw (e, write_loop) (refl, held-end total s q e l)
  | inr (inr (m, q, e)) ↦
      let (a', same) = append_line-held p k s m q a e in
      let s' = append_line (record s { queue = q; clock = suc s.clock }) m in
      rw (e, write_loop)
        (rw (v.puts s.clock)
          (write_loop-Moved c p k n total s' v a' (ap (◌++◌ s.delivered) same ∙ l)))
]

pub write_backlog-Moved :
    {H : Type 0} (c : Calls H) (p k : ℕ) (total : List Msg) (s : State H)
    → Healthy c
    → AtPlace p k s
    → Left total s
    → Moved p k total s.msg (write_backlog c s)
unfolding write_backlog write_open
write_backlog-Moved c p k total s v a l =
    subst (λ b. Moved p k total s.msg (write_open c s b)) (sym a.open_out)
      (write_loop-Moved c p k (c.size s.clock) total (tick s) v
        (record { place = a.place; before = a.before; long = a.long; open_out = a.open_out }) l)
