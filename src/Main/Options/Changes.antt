-- ===== src/Main/Options/Changes.antt =====
-- What one option changes in the settings of main().
use genbuf.Prelude.{
  ℕ, ◌+◌, ◌≡◌, ◌≢◌, inl, inr, refl, Bool, true, false, Option, none, some, List, [], ◌∷◌, ◌==◌,
  arith, length, length-append, Bool-cases, if◌then◌else◌, min,
}
use genbuf.NetTools.{Net}
use genbuf.Output.Command.{World, Run, ok, aborted, out_of_fuel}
use genbuf.Log.{Level, rank}
use genbuf.Logger
use genbuf.Logger.{Logger}
use genbuf.Reader.{add_source}
use genbuf.Setup.{Os, Input, IoType, type_unknown, Destination}
use genbuf.Main.{
  parse_type, Opt, short_of, more_verbose, Setting, Taken, takes, fails, dies, is_unknown,
  set_in_type, set_out_type, source_added, register_source, add_input, destination_set,
  register_destination, new_output, set_output, add_output, set_backlog, take_option,
}

abbrev pub hits : ℕ → ℕ → ℕ
hits c d = if c == d then 1 else 0

-- how often an option is on the command line
unfoldable pub count : ℕ → List Opt → ℕ
count c [] = 0
count c (opt ∷ opts) = hits (short_of opt) c + count c opts

abbrev pub given {ℓ} : {A : Type ℓ} → Option A → ℕ
given none = 0
given (some a) = 1

-- A destination is set together with its resource.
abbrev pub Consistent : Setting → Type 0
Consistent s =
    (s.in_type ≢ type_unknown)
    × (s.out_type ≢ type_unknown)
    × (given s.out_res ≡ given s.logger.dest)

-- what the options v, s and d, with so many of each, change
unfoldable pub Changed : (v n d : ℕ) → Setting → Setting → Type 0
Changed v n d s s' =
    (rank s'.current_log_level ≡ min 5 (rank s.current_log_level + v))
    × (length s'.sources ≡ length s.sources + n)
    × (given s'.out_res ≡ given s.out_res + d)
    × Consistent s'

unfoldable pub Result : (Setting → Type 0) → Taken → Type 0
Result P (takes s w) = P s
Result P fails = Unit
Result P dies = Unit

more_verbose_lem : (l : Level) → rank (more_verbose l) ≡ min 5 (rank l + 1)
unfolding more_verbose rank
more_verbose_lem l = ground arith

rank-bounded : (l : Level) → rank l ≡ min 5 (rank l + 0)
unfolding rank
rank-bounded l = ground arith

pub stay-Changed : (s : Setting) → Consistent s → Changed 0 0 0 s s
unfolding Changed
stay-Changed s i = (rank-bounded s.current_log_level, omega arith, omega arith, i)

set_in_type-Changed :
    (s : Setting) (w : World) (ty : IoType)
    → Consistent s
    → Result (Changed 0 0 0 s) (set_in_type s w ty)
unfolding set_in_type Changed Result
set_in_type-Changed s w ty i = let (v, n, d, j) = stay-Changed s i in ground arith

set_out_type-Changed :
    (s : Setting) (w : World) (ty : IoType)
    → Consistent s
    → Result (Changed 0 0 0 s) (set_out_type s w ty)
unfolding set_out_type Changed Result
set_out_type-Changed s w ty i = let (v, n, d, j) = stay-Changed s i in ground arith

register_source-Changed :
    (s : Setting) (res : List ℕ) (r : Run Input)
    → Consistent s
    → Result (Changed 0 1 0 s) (register_source (record s { in_res = some res }) r)
unfolding register_source source_added add_source Changed Result
register_source-Changed s res (ok h w) i =
    (rank-bounded s.current_log_level, length-append s.sources _, omega arith, i)
register_source-Changed s res aborted i = tt
register_source-Changed s res out_of_fuel i = tt

add_input-Changed :
    (os : Os) (net : Net) (s : Setting) (w : World) (res : List ℕ) (dup : Bool)
    → Consistent s
    → Result (Changed 0 1 0 s) (add_input os net s w res dup)
unfolding add_input Result
add_input-Changed os net s w res false i = tt
add_input-Changed os net s w res true i = register_source-Changed s res _ i

register_destination-Changed :
    (s : Setting) (res : List ℕ) (r : Run Destination)
    → Consistent s
    → s.out_res ≡ none
    → Result (Changed 0 0 1 s) (register_destination (record s { out_res = some res }) r)
unfolding register_destination destination_set Logger.set_destination Changed Result
register_destination-Changed s res (ok d w) (a, b, c) e =
    let o : s.logger.dest ≡ none = ground arith in
    rw (o, Logger.set_destination)
      (rank-bounded s.current_log_level, omega arith, rw e refl, (a, b, refl))
register_destination-Changed s res aborted i e = tt
register_destination-Changed s res out_of_fuel i e = tt

set_output-Changed :
    (os : Os) (s : Setting) (w : World) (res : List ℕ) (dup : Bool) (out : Option (List ℕ))
    → Consistent s
    → s.out_res ≡ out
    → Result (Changed 0 0 1 s) (set_output os s w res dup out)
unfolding set_output new_output Result
set_output-Changed os s w res dup (some old) i e = tt
set_output-Changed os s w res false none i e = tt
set_output-Changed os s w res true none i e = register_destination-Changed s res _ i e

add_output-Changed :
    (os : Os) (s : Setting) (w : World) (res : List ℕ) (dup : Bool)
    → Consistent s
    → Result (Changed 0 0 1 s) (add_output os s w res dup)
unfolding add_output Result
add_output-Changed os s w res dup i = elim (Bool-cases (is_unknown s.out_type)) [
  | inl e ↦ rw (e, add_output) tt
  | inr e ↦ rw (e, add_output) (set_output-Changed os s w res dup s.out_res i refl)
]

set_backlog-Changed :
    (s : Setting) (w : World) (path : List ℕ) (dup : Bool)
    → Consistent s
    → Result (Changed 0 0 0 s) (set_backlog s w path dup)
unfolding set_backlog Changed Result
set_backlog-Changed s w path false i = tt
set_backlog-Changed s w path true i = stay-Changed s i

more-Changed :
    (s : Setting) (w : World)
    → Consistent s
    → Changed 1 0 0 s (record s { current_log_level = more_verbose s.current_log_level })
unfolding Changed
more-Changed s w i = (more_verbose_lem s.current_log_level, omega arith, omega arith, i)

pub take_option-Changed :
    (os : Os) (net : Net) (dup : ℕ → Bool) (s : Setting) (w : World) (arg : List ℕ) (c : ℕ)
    → Consistent s
    → Result (Changed (hits c 118) (hits c 115) (hits c 100) s) (take_option os net dup s w arg c)
unfolding take_option Result
take_option-Changed os net dup s w arg c i =
    let a = more-Changed s w i in
    let b = set_in_type-Changed s w (parse_type arg) i in
    let d = set_out_type-Changed s w (parse_type arg) i in
    let e = add_input-Changed os net s w arg (dup w.clock) i in
    let f = add_output-Changed os s w arg (dup w.clock) i in
    let g = set_backlog-Changed s w arg (dup w.clock) i in ground arith
