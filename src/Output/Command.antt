-- ===== src/Output/Command.antt =====
-- A run of code that calls the kernel: the world that it changes, and the ends besides a result.
use genbuf.Prelude.{ℕ, suc, Bool, true, false, List}

-- `clock` counts the calls to the kernel; `sent` is what write() took, in order.
pub record World : Type 0 where
  pub clock : ℕ
  pub sent : List ℕ

-- `aborted` is a `Require` or `Fatal` that fails.
pub data Run (A : Type 0) : Type 0 where
  ok : A → World → Run A
  aborted : Run A
  out_of_fuel : Run A

abbrev pub Cmd : Type 0 → Type 0
Cmd A = World → Run A

abbrev pub pure : {A : Type 0} → A → Cmd A
pure a w = ok a w

infixl 5 ◌>>=◌ ◌>>◌
abbrev pub ◌>>=◌ : {A B : Type 0} → Cmd A → (A → Cmd B) → Cmd B
◌>>=◌ m f w = elim (m w) [ ok a w' ↦ f a w' | aborted ↦ aborted | out_of_fuel ↦ out_of_fuel ]

abbrev pub ◌>>◌ : {B : Type 0} → Cmd (Unit {0}) → Cmd B → Cmd B
m >> k = m >>= λ _. k

abbrev pub tick : World → World
tick w = record w { clock = suc w.clock }

abbrev pub require : Bool → Cmd (Unit {0})
require true w = ok tt w
require false w = aborted
