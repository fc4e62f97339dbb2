-- ===== src/InputBuffer/Tests.antt =====
-- input_buffer.c on small buffers, and its theorems there.
use genbuf.Prelude.{ℕ, ◌≡◌, refl, List, [], ◌∷◌, arith, some, true}
use genbuf.InputBuffer.{
  InputBuffer, bytes, index_of, memchr, create, find, validate, getline, newline,
}
use genbuf.InputBuffer.Shape.{Holds, flat, wrapped}
use genbuf.InputBuffer.Search.{length_to, find-Holds}
use genbuf.InputBuffer.Line.{take_line, LineOut, getline-LineOut}

-- eight bytes from address 100 on
abbrev fresh : InputBuffer
fresh = record {
  start = 100;
  current = 100;
  border = 100;
  end = 108;
  available = 8;
  write = 8;
  mem = 0 ∷ 0 ∷ 0 ∷ 0 ∷ 0 ∷ 0 ∷ 0 ∷ 0 ∷ [];
}

-- the line 1 2 3 newline goes round the end; 4 follows it
abbrev round : InputBuffer
round = record {
  start = 100;
  current = 103;
  border = 106;
  end = 108;
  available = 3;
  write = 3;
  mem = 3 ∷ 10 ∷ 4 ∷ 0 ∷ 0 ∷ 0 ∷ 1 ∷ 2 ∷ [];
}

abbrev round_bytes : List ℕ
round_bytes = 1 ∷ 2 ∷ 3 ∷ 10 ∷ 4 ∷ []

-- two lines in one part
abbrev lines : InputBuffer
lines = record fresh {
  current = 104;
  available = 4;
  write = 4;
  mem = 1 ∷ 10 ∷ 2 ∷ 10 ∷ 0 ∷ 0 ∷ 0 ∷ 0 ∷ [];
}

create-fresh : create 8 100 fresh.mem ≡ fresh
unfolding create
create-fresh = refl

round-getline :
    getline round
    ≡ (some (1 ∷ 2 ∷ 3 ∷ 10 ∷ []), record round { border = 102; available = 7; write = 5 })
unfolding getline find memchr bytes index_of
round-getline = refl

round-validate : validate round ≡ true
unfolding validate
round-validate = refl

fresh-Holds : Holds fresh []
fresh-Holds = flat [] fresh.mem (record {
  layout = refl;
  border_at = refl;
  current_at = refl;
  end_at = refl;
  room = omega arith;
  free = refl;
  writable = refl;
})

lines-Holds : Holds lines (1 ∷ 10 ∷ 2 ∷ 10 ∷ [])
lines-Holds = flat [] (0 ∷ 0 ∷ 0 ∷ 0 ∷ []) (record {
  layout = refl;
  border_at = refl;
  current_at = refl;
  end_at = refl;
  room = omega arith;
  free = refl;
  writable = refl;
})

round-Holds : Holds round round_bytes
round-Holds = wrapped (3 ∷ 10 ∷ 4 ∷ []) (0 ∷ 0 ∷ 0 ∷ []) (1 ∷ 2 ∷ []) refl (record {
  layout = refl;
  current_at = refl;
  border_at = refl;
  end_at = refl;
  used = omega arith;
  free = refl;
  writable = refl;
})

find-Holds_example : find round newline ≡ length_to newline round_bytes
find-Holds_example = find-Holds newline round-Holds

getline-LineOut_example : LineOut round (some (1 ∷ 2 ∷ 3 ∷ 10 ∷ [], 4 ∷ [])) (getline round)
unfolding take_line
getline-LineOut_example = getline-LineOut round-Holds
