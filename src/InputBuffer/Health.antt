-- ===== src/InputBuffer/Health.antt =====
-- `input_buffer_create` and `input_buffer_validate`: a new buffer is empty, and the source's own
-- check accepts every buffer that holds some bytes.
use genbuf.Prelude.{ℕ, ◌<◌, ◌≢◌, ◌≡◌, refl, true, List, [], ◌∷◌, arith, length}
use genbuf.InputBuffer.{InputBuffer, create, validate}
use genbuf.InputBuffer.Shape.{Flat, Wrapped, Holds, size, flat, wrapped}

-- A new buffer of a positive size is empty, and all of it may be written.
pub create-Holds :
    (n address : ℕ) (garbage : List ℕ)
    → 0 < n
    → length garbage ≡ n
    → let b = create n address garbage in Holds b [] × (b.write ≡ n) × (size b ≡ n)
unfolding create
create-Holds n address garbage h e = (
  flat [] garbage (record {
    layout = refl;
    border_at = omega arith;
    current_at = omega arith;
    end_at = omega arith;
    room = omega arith;
    free = omega arith;
    writable = omega arith;
  }),
  refl,
  omega arith,
)

validate-Flat :
    (b : InputBuffer) (xs pre post : List ℕ) → Flat b xs pre post → b.start ≢ 0 → validate b ≡ true
unfolding validate
validate-Flat b [] pre post f h = ground arith
validate-Flat b (x ∷ xs) pre post f h = ground arith

validate-Wrapped :
    (b : InputBuffer) (head gap tail : List ℕ)
    → Wrapped b head gap tail
    → b.start ≢ 0
    → validate b ≡ true
unfolding validate
validate-Wrapped b head [] tail w h = ground arith
validate-Wrapped b head (x ∷ gap) tail w h = ground arith

-- The check `input_buffer_validate` succeeds on every buffer that holds some bytes, if its memory
-- is not at address 0.
pub validate-Holds : {b : InputBuffer} {xs : List ℕ} → Holds b xs → b.start ≢ 0 → validate b ≡ true
validate-Holds {b} {xs} (flat pre post f) h = validate-Flat b xs pre post f h
validate-Holds {b} (wrapped head gap tail e w) h = validate-Wrapped b head gap tail w h
