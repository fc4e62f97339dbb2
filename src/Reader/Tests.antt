-- ===== src/Reader/Tests.antt =====
-- A reader of two sources on common handlers of eight bytes, and its theorems there.
use genbuf.Prelude.{
  ℕ, zero, suc, ◌≡◌, refl, sym, ap, List, [], ◌∷◌, ◌++◌, arith, length, take, length-take, some,
  inl, inr, true,
}
use genbuf.Sys.{got, epipe}
use genbuf.InputBuffer.{create}
use genbuf.InputBuffer.Health.{create-Holds}
use genbuf.InputBuffer.Line.{take_line}
use genbuf.InputTools.{CommonHandler, is_ready, Answer}
use genbuf.InputTools.Assembler.{collecting, feed}
use genbuf.InputTools.Refine.{Models, Delivers}
use genbuf.InputTools.Stream.{answer}
use genbuf.InputTools.Faults.{Obeys}
use mathlib.Core.List.{Perm}
use genbuf.InputTools.Cleanup.{common_getfd}
use genbuf.Reader.{
  Reader, Kernel, select_failed, scan_all, scan, visit, is_set, all_fds, recover, run, common_kind,
  ends, ends_on_error, clean_handlers,
}
use genbuf.Reader.Closes.Common.{Each, IsSound, closed_fds, common_closes}
use genbuf.Reader.Reread.{two}
use genbuf.Reader.Common.{common_rereads}

abbrev memory : List ℕ
memory = 0 ∷ 0 ∷ 0 ∷ 0 ∷ 0 ∷ 0 ∷ 0 ∷ 0 ∷ []

abbrev source : ℕ → CommonHandler
source fd = record { fd = fd; inbuf = create 8 100 memory; state = is_ready }

source-Models : (fd : ℕ) → Models 8 (source fd) (collecting [])
unfolding take_line
source-Models fd =
    let (held, room, sized) = create-Holds 8 100 memory (omega arith) refl in
    (refl, held, refl, omega arith, sized)

-- a line, and part of the next
abbrev some_bytes : List ℕ
some_bytes = 1 ∷ 10 ∷ 2 ∷ []

-- every source has three bytes
abbrev busy : Answer
busy = record { fionread = some 3; read = λ n. got (take n some_bytes) }

got-cong : {xs ys : List ℕ} → got xs ≡ got ys → xs ≡ ys
got-cong q = cc

busy-Obeys : Obeys 8 busy
busy-Obeys k xs e =
    let n = length-take k some_bytes in
    let same = ap length (sym (got-cong e)) in (omega (arith, n, same), omega (arith, n, same))

abbrev pair : Reader CommonHandler
pair = record {
  sources = two 3 4 (source 3) (source 4);
  fds = 3 ∷ 4 ∷ [];
  queue = [];
  clock = 0;
  cleaned = [];
}

-- the first source has three bytes, and then neither has any
abbrev once : ℕ → Answer
once zero = answer 3 some_bytes
once (suc t) = record { fionread = some 0; read = λ n. got [] }

room : (create 8 100 memory).write ≡ 8
room = (create-Holds 8 100 memory (omega arith) refl).1

once-Delivers : Delivers (once 0) (source 3) some_bytes
once-Delivers = record {
  ready = 3;
  reported = refl;
  some_ready = omega arith;
  result = rw room refl;
  some_read = omega arith;
  within = rw room (omega arith);
}

common_rereads_example :
    (r : Reader CommonHandler) × (scan_all (common_kind once) 3 pair ≡ ends r)
    × (r.sources ≡ [])
    × (r.queue ≡ [] ++ (feed 8 (collecting []) some_bytes).1)
common_rereads_example =
    common_rereads 8 3 4 0 0 (source 3) (source 4) (collecting []) (collecting []) once some_bytes
      [] (omega arith) (λ q. omega (arith, q)) (source-Models 3) (source-Models 4) once-Delivers
      (λ q. omega arith) refl refl

-- select() fails at once, and both sources are cleaned up by the reader's cleanup.
abbrev broken : Kernel
broken = record { select = λ t fds. select_failed epipe; has_flags = λ t fd. true }

abbrev quiet_pair : Reader CommonHandler
quiet_pair = record pair { fds = [] }

quiet_pair-IsSound : Each (IsSound 8) quiet_pair.sources
unfolding Each common_getfd create
quiet_pair-IsSound = (
  (refl, inl (collecting [], source-Models 3)),
  ((refl, inl (collecting [], source-Models 4)), tt),
)

run-broken :
    run broken (common_kind (λ t. busy)) 5 quiet_pair
    ≡ ends_on_error epipe (record quiet_pair { fds = 3 ∷ 4 ∷ []; clock = 1 })
unfolding run scan_all scan visit is_set all_fds recover
run-broken = refl

common_closes_example :
    Perm
      (closed_fds
        (λ fd. true)
        (clean_handlers (record quiet_pair { fds = 3 ∷ 4 ∷ []; clock = 1 })).cleaned)
      (all_fds quiet_pair.sources)
common_closes_example =
    common_closes 8 (λ fd. true) (λ t. busy) broken 5 quiet_pair
      (record quiet_pair { fds = 3 ∷ 4 ∷ []; clock = 1 }) (omega arith) (λ t. busy-Obeys)
      quiet_pair-IsSound refl (inr (epipe, run-broken))
