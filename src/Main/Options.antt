-- ===== src/Main/Options.antt =====
-- What a command line comes to: its sources, its one destination, and the types in force.
pub mod Changes
use genbuf.Prelude.{
  ℕ, ◌+◌, ◌≡◌, ◌≢◌, inl, inr, refl, subst, ◌≤◌, Bool, true, false, Option, none, some, List, [],
  ◌∷◌, ◌==◌, arith, length, length-append, Bool-cases, if◌then◌else◌, min,
}
use genbuf.NetTools.{Net}
use genbuf.Output.Command.{World, Run, ok, aborted, out_of_fuel}
use genbuf.Log.{Level, rank, debug}
use genbuf.Logger
use genbuf.Logger.{Logger}
use genbuf.Reader.{add_source}
use genbuf.Setup.{Os, Input, IoType, type_unknown, Destination}
use genbuf.Main.{
  parse_type, Opt, short_of, more_verbose, Setting, start, Taken, takes, fails, dies, is_unknown,
  set_in_type, set_out_type, source_added, register_source, add_input, destination_set,
  register_destination, new_output, set_output, add_output, set_backlog, take_option, take_options,
}
use genbuf.Main.Options.Changes.{
  count, given, Consistent, Changed, Result, stay-Changed, take_option-Changed,
}

trans-Changed :
    (v n d v' n' d' : ℕ) (s s' s2 : Setting)
    → Changed v n d s s'
    → Changed v' n' d' s' s2
    → Changed (v + v') (n + n') (d + d') s s2
unfolding Changed
trans-Changed v n d v' n' d' s s' s2 (a, b, c, i) (a', b', c', j) =
    (omega arith, omega arith, omega arith, j)

Changed-Consistent : (v n d : ℕ) (s s' : Setting) → Changed v n d s s' → Consistent s'
unfolding Changed
Changed-Consistent v n d s s' (_, _, _, i) = i

Result-trans :
    (v n d v' n' d' : ℕ) (s s' : Setting) (t : Taken)
    → Changed v n d s s'
    → Result (Changed v' n' d' s') t
    → Result (Changed (v + v') (n + n') (d + d') s) t
unfolding Result
Result-trans v n d v' n' d' s s' (takes s2 w) a b = trans-Changed v n d v' n' d' s s' s2 a b
Result-trans v n d v' n' d' s s' fails a b = tt
Result-trans v n d v' n' d' s s' dies a b = tt

rest-Changed :
    (os : Os) (net : Net) (dup : ℕ → Bool) (s : Setting) (opts : List Opt) (v n d v' n' d' : ℕ)
    (t : Taken)
    → Result (Changed v n d s) t
    → ((s' : Setting) (w' : World)
        → Consistent s'
        → Result (Changed v' n' d' s') (take_options os net dup s' w' opts))
    → Result
        (Changed (v + v') (n + n') (d + d') s)
        (elim t [ takes s' w' ↦ take_options os net dup s' w' opts | fails ↦ fails | dies ↦ dies ])
unfolding Result
rest-Changed os net dup s opts v n d v' n' d' (takes s' w') a ih =
    Result-trans v n d v' n' d' s s' (take_options os net dup s' w' opts) a
      (ih s' w' (Changed-Consistent v n d s s' a))
rest-Changed os net dup s opts v n d v' n' d' fails a ih = tt
rest-Changed os net dup s opts v n d v' n' d' dies a ih = tt

take_options-Changed :
    (os : Os) (net : Net) (dup : ℕ → Bool) (s : Setting) (w : World) (opts : List Opt)
    → Consistent s
    → Result
        (Changed (count 118 opts) (count 115 opts) (count 100 opts) s)
        (take_options os net dup s w opts)
unfolding take_options count Result
take_options-Changed os net dup s w [] i = stay-Changed s i
take_options-Changed os net dup s w (opt ∷ opts) i =
    rest-Changed os net dup s opts _ _ _ _ _ _
      (take_option os net dup s w opt.optarg (short_of opt))
      (take_option-Changed os net dup s w opt.optarg (short_of opt) i)
      (λ s' w' j. take_options-Changed os net dup s' w' opts j)

given-bounded {ℓ} : {A : Type ℓ} (o : Option A) (n : ℕ) → given o ≡ n → n ≤ 1
given-bounded none n e = omega arith
given-bounded (some a) n e = omega arith

start-Consistent : Consistent start
unfolding start Logger.init
start-Consistent = (ground arith, ground arith, refl)

taken :
    (os : Os) (net : Net) (dup : ℕ → Bool) (s s' : Setting) (w w' : World) (opts : List Opt)
    → Consistent s
    → take_options os net dup s w opts ≡ takes s' w'
    → Changed (count 118 opts) (count 115 opts) (count 100 opts) s s'
unfolding Result
taken os net dup s s' w w' opts i e =
    subst (Result (Changed (count 118 opts) (count 115 opts) (count 100 opts) s)) e
      (take_options-Changed os net dup s w opts i)

-- Where main() takes a command line, there is a source for each option s, in number, and a
-- destination exactly where there is an option d, of which there is one at most; and the types for
-- further sources and destinations are known ones.
pub take_options-Consistent :
    (os : Os) (net : Net) (dup : ℕ → Bool) (w w' : World) (s : Setting) (opts : List Opt)
    → take_options os net dup start w opts ≡ takes s w'
    → (length s.sources ≡ count 115 opts)
      × (given s.logger.dest ≡ count 100 opts)
      × (count 100 opts ≤ 1)
      × (s.in_type ≢ type_unknown)
      × (s.out_type ≢ type_unknown)
unfolding start Changed
take_options-Consistent os net dup w w' s opts e =
    let (_, n, d, (a, b, c)) = taken os net dup start s w w' opts start-Consistent e in
    (omega arith, omega arith, given-bounded s.logger.dest (count 100 opts) (omega arith), a, b)

-- Where main() takes a command line, the log level is raised once for each option v, up to debug.
pub take_options-bounded :
    (os : Os) (net : Net) (dup : ℕ → Bool) (w w' : World) (s : Setting) (opts : List Opt)
    → take_options os net dup start w opts ≡ takes s w'
    → (rank s.current_log_level ≡ min 5 (count 118 opts)) × (rank s.current_log_level ≤ rank debug)
unfolding start Changed rank
take_options-bounded os net dup w w' s opts e =
    let (v, _, _, _) = taken os net dup start s w w' opts start-Consistent e in
    (omega arith, omega arith)
