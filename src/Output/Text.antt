-- ===== src/Output/Text.antt =====
-- A message as deliver_message of src/output.c gets it: the bytes before the first NUL.
use genbuf.Prelude.{ℕ, suc, ◌≡◌, ◌≢◌, refl, some, List, [], ◌∷◌, arith}
use genbuf.Sys.{Errno}
use genbuf.Output.{text, OutputHandler, os_ready}

-- no byte is 0
unfoldable pub NoNul : List ℕ → Type 0
NoNul [] = Unit
NoNul (x ∷ xs) = (x ≢ 0) × NoNul xs

pub text-NoNul : (xs : List ℕ) → NoNul xs → text xs ≡ xs
unfolding NoNul text
text-NoNul [] v = refl
text-NoNul (x ∷ xs) (z, v) = ground (arith, text-NoNul xs v)

-- a handler that is ready, with a try left
abbrev pub connected : ℕ → Errno → ℕ → OutputHandler
connected n err retry = record { state = os_ready; fd = some n; err = err; retry = suc retry }
