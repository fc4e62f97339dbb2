-- ===== src/Log.antt =====
-- src/log.c and log.h: which reports are printed, and which of them end the process.
-- The text of time() and the locks of stderr are left out.
pub mod Fatal
use genbuf.Prelude.{
  ℕ, Bool, true, false, not, Option, none, some, List, [], ◌∷◌, ltb, if◌then◌else◌,
}

-- enum log_levels
pub data Level : Type 0 where
  impossible critical error warning info debug : Level

-- the enumerators' values
unfoldable pub rank : Level → ℕ
rank impossible = 0
rank critical = 1
rank error = 2
rank warning = 3
rank info = 4
rank debug = 5

-- One line of stderr: its message and the text behind it. A formatted report has its place in the
-- source instead of a message.
pub data Line : Type 0 where
  line : (msg err : Option (List ℕ)) → Line
  formatted : (file : List ℕ) (number : ℕ) (text : List ℕ) (err : Option (List ℕ)) → Line

-- what a report prints, and whether it returns or calls abort()
pub data Report : Type 0 where
  returns : List Line → Report
  aborts : List Line → Report

-- `level > current_log_level`
abbrev pub is_filtered : Level → Level → Bool
is_filtered current level = ltb (rank current) (rank level)

abbrev pub or_default : List ℕ → Option (List ℕ) → Option (List ℕ)
or_default text none = some text
or_default text (some msg) = some msg

unfoldable pub custom_log : Level → List ℕ → ℕ → Level → List ℕ → Report
custom_log current file number level text =
    if is_filtered current level then returns [] else returns (formatted file number text none ∷ [])

unfoldable pub custom_system_error :
    (ℕ → List ℕ) → Level → List ℕ → ℕ → Level → (fatal : Bool) → ℕ → List ℕ → Report
custom_system_error strerror current file number level fatal err text =
    let said = formatted file number text (some (strerror err)) ∷ [] in
    if is_filtered current level then returns [] else (if fatal then aborts said else returns said)

-- "Log"
abbrev pub log_text : List ℕ
log_text = 76 ∷ 111 ∷ 103 ∷ []

unfoldable pub log2 : Level → Level → (err msg : Option (List ℕ)) → List Line
log2 current level err msg =
    if is_filtered current level then [] else line (or_default log_text msg) err ∷ []

unfoldable pub log : Level → Level → List ℕ → List Line
log current level msg = log2 current level (some msg) none

-- "Failed!" and "Requirement"
abbrev pub failed_text : List ℕ
failed_text = 70 ∷ 97 ∷ 105 ∷ 108 ∷ 101 ∷ 100 ∷ 33 ∷ []

abbrev pub requirement_text : List ℕ
requirement_text = 82 ∷ 101 ∷ 113 ∷ 117 ∷ 105 ∷ 114 ∷ 101 ∷ 109 ∷ 101 ∷ 110 ∷ 116 ∷ []

unfoldable pub require : Level → (cond : Bool) → Report
require current cond =
    if cond
    then returns []
    else aborts (log2 current critical (some failed_text) (some requirement_text))

-- "Fatal"
abbrev pub fatal_text : List ℕ
fatal_text = 70 ∷ 97 ∷ 116 ∷ 97 ∷ 108 ∷ []

unfoldable pub fatal : Level → (cond : Bool) → (err msg : Option (List ℕ)) → Report
fatal current cond err msg =
    if cond then aborts (log2 current critical err (or_default fatal_text msg)) else returns []

-- "SysFatal"
abbrev pub sys_fatal_text : List ℕ
sys_fatal_text = 83 ∷ 121 ∷ 115 ∷ 70 ∷ 97 ∷ 116 ∷ 97 ∷ 108 ∷ []

unfoldable pub sys_fatal :
    (ℕ → List ℕ) → Level → (cond : Bool) → ℕ → (msg : Option (List ℕ)) → Report
sys_fatal strerror current cond err msg =
    if cond
    then aborts (log2 current critical (some (strerror err)) (or_default sys_fatal_text msg))
    else returns []

-- "Not-NULL check"
abbrev pub not_null_text : List ℕ
not_null_text = 78 ∷ 111 ∷ 116 ∷ 45 ∷ 78 ∷ 85 ∷ 76 ∷ 76 ∷ 32 ∷ 99 ∷ 104 ∷ 101 ∷ 99 ∷ 107 ∷ []

unfoldable pub not_null : {A : Type 0} → Level → Option A → Report
not_null current none = fatal current true (some failed_text) (some not_null_text)
not_null current (some a) = fatal current false (some failed_text) (some not_null_text)

-- "System error"
abbrev pub system_error_text : List ℕ
system_error_text = 83 ∷ 121 ∷ 115 ∷ 116 ∷ 101 ∷ 109 ∷ 32 ∷ 101 ∷ 114 ∷ 114 ∷ 111 ∷ 114 ∷ []

unfoldable pub sys_err : (ℕ → List ℕ) → Level → ℕ → (msg : Option (List ℕ)) → List Line
sys_err strerror current err msg =
    log2 current error (some (strerror err)) (or_default system_error_text msg)
