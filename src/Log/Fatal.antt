-- ===== src/Log/Fatal.antt =====
-- Which reports end the process, whatever the log level is.

use genbuf.Prelude.{ℕ, ◌≡◌, ◌↔◌, Bool, true, false, Option, none, List, ◌≤◌, arith}
use genbuf.Log.{
  Level, rank, Report, returns, aborts, custom_system_error, require, fatal, sys_fatal, not_null,
}

-- the report ends the process
unfoldable pub Ends : Report → Type 0
Ends (returns said) = ⊥
Ends (aborts said) = Unit

-- Whatever the log level is, Require and NotNull end the process exactly where their argument is false
-- or NULL, and Fatal and SysFatal exactly where their condition holds; CustomSystemError only where the
-- level of the report is also at most the log level.
pub fatal_lem :
    (strerror : ℕ → List ℕ) (current level : Level) (cond : Bool) (err number : ℕ)
    (file text : List ℕ) (e msg : Option (List ℕ))
    → (Ends (require current cond) ↔ (cond ≡ false))
      × (Ends (not_null current msg) ↔ (msg ≡ none))
      × (Ends (fatal current cond e msg) ↔ (cond ≡ true))
      × (Ends (sys_fatal strerror current cond err msg) ↔ (cond ≡ true))
      × (Ends (custom_system_error strerror current file number level cond err text)
          ↔ ((cond ≡ true) × (rank level ≤ rank current)))
unfolding Ends require fatal sys_fatal custom_system_error not_null
fatal_lem strerror current level cond err number file text e msg = ground arith
