-- ===== src/Logger/Order.antt =====
-- What the logger has still to deliver, in order, and the conditions on the files under which it
-- loses nothing.
use genbuf.Prelude.{
  ℕ, zero, suc, ◌≤◌, ◌≡◌, refl, Bool, true, false, Option, none, some, List, [], ◌∷◌, ◌++◌, arith,
  length, drop, get_elem?, if◌then◌else◌,
}
use genbuf.Logger.{
  Msg, Calls, State, Stop, ended, waits, crashed, aborted, stuck, running, Turn, goes, stops,
  puts_ok, content,
}

-- the messages before the reader's mark of the end
abbrev pub until_end : List (Option Msg) → List Msg
until_end [] = []
until_end (none ∷ q) = []
until_end (some m ∷ q) = m ∷ until_end q

abbrev pub list_of : Option Msg → List Msg
list_of none = []
list_of (some m) = m ∷ []

-- the lines of the file that are not read yet
abbrev pub unread : Option ℕ → List Msg → List Msg
unread none lines = []
unread (some p) lines = drop p lines

abbrev pub saved : {H : Type 0} → State H → List Msg
saved s = unread s.backlog_in (content s.file)

-- the current message, the rest of the backlog, and the queue
abbrev pub held : {H : Type 0} → State H → List Msg
held s = list_of s.msg ++ (saved s ++ until_end s.queue)

-- a run ends where there is no current message
abbrev pub pending : {H : Type 0} → State H → List Msg
pending s = elim s.msg [ none ↦ [] | some _ ↦ held s ]

-- The files can be opened, read, written and truncated.
pub record Healthy {H : Type 0} (c : Calls H) : Type 0 where
  pub reads : (t : ℕ) → c.fopen_read t ≡ true
  pub appends : (t : ℕ) → c.fopen_append t ≡ true
  pub puts : (t : ℕ) → c.fputs t ≡ puts_ok
  pub lines : (t : ℕ) → c.read_fails t ≡ false
  pub truncates : (t : ℕ) → c.truncate t ≡ true

-- A delivery of a message that fits returns, and its destination keeps a relation to what was
-- delivered so far.
pub record Tracks {H : Type 0} (fits : Msg → Type 0) (rel : List Msg → H → Type 0) (c : Calls H)
    : Type 0 where
  pub delivers :
      (t : ℕ) (h : H) (m : Msg) (ds : List Msg)
      → rel ds h
      → fits m
      → (b : Bool) × (h' : H) × (c.deliver t h m ≡ some (b, h'))
        × rel (if b then ds ++ m ∷ [] else ds) h'

-- every message fits
abbrev pub AllFit : (Msg → Type 0) → List Msg → Type 0
AllFit fits [] = Unit
AllFit fits (m ∷ ms) = fits m × AllFit fits ms

pub AllFit-middle :
    (fits : Msg → Type 0) (xs : List Msg) (m : Msg) (ys : List Msg)
    → AllFit fits (xs ++ m ∷ ys)
    → fits m
AllFit-middle fits [] m ys a = a.0
AllFit-middle fits (x ∷ xs) m ys a = AllFit-middle fits xs m ys a.1

-- The backlog is empty where it is not being read; else its place lies within it.
pub record IsValid {H : Type 0} (s : State H) : Type 0 where
  pub closed : s.backlog_in ≡ none → (content s.file ≡ []) × (s.backlog_out ≡ false)
  pub within : (p : ℕ) → s.backlog_in ≡ some p → p ≤ length (content s.file)

-- What has become of `total`, the messages that there were to deliver, where a run is left: at a crash
-- the current message and the file have the rest.
abbrev pub Kept : {H : Type 0} → List Msg → Stop → State H → Type 0
Kept total ended s = s.delivered ≡ total
Kept total waits s = s.delivered ++ held s ≡ total
Kept total crashed s = s.delivered ++ (list_of s.msg ++ saved s) ≡ total
Kept total aborted s = ⊥
Kept total stuck s = ⊥
Kept total running s = IsValid s × (s.delivered ++ pending s ≡ total)

abbrev pub Keeps : {H : Type 0} → List Msg → Turn H → Type 0
Keeps total (goes s) = IsValid s × (s.delivered ++ pending s ≡ total)
Keeps total (stops e s) = Kept total e s

pub drop-get_elem? :
    {A : Type 0} (p : ℕ) (xs : List A) (x : A)
    → get_elem? xs p ≡ some x
    → (drop p xs ≡ x ∷ drop (suc p) xs) × (suc p ≤ length xs)
drop-get_elem? p [] x e = absurd (cc)
drop-get_elem? zero (y ∷ xs) x e = (ground arith, omega arith)
drop-get_elem? (suc p) (y ∷ xs) x e = let (q, le) = drop-get_elem? p xs x e in (q, omega arith)

pub drop-get_elem?-none :
    {A : Type 0} (p : ℕ) (xs : List A) → get_elem? xs p ≡ none → drop p xs ≡ []
drop-get_elem?-none zero [] e = refl
drop-get_elem?-none (suc p) [] e = refl
drop-get_elem?-none zero (y ∷ xs) e = absurd (cc)
drop-get_elem?-none (suc p) (y ∷ xs) e = drop-get_elem?-none p xs e

pub drop-append_right :
    {A : Type 0} (p : ℕ) (xs ys : List A) → p ≤ length xs → drop p (xs ++ ys) ≡ drop p xs ++ ys
drop-append_right zero xs ys k = refl
drop-append_right (suc p) [] ys k = absurd (omega arith)
drop-append_right (suc p) (x ∷ xs) ys k = drop-append_right p xs ys (omega arith)
