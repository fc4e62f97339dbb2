-- ===== src/Reader/Merge.antt =====
-- Sources that each have lines to report, and the order in which a reader queues them: the lines of
-- one source stay in order, and those of different sources come as the reads do.
pub mod Scan
pub mod Run
use genbuf.Prelude.{
  ℕ, suc, ◌+◌, ◌<◌, ◌≤◌, ◌≡◌, refl, sym, ap, ◌∙◌, ◌⊎◌, subst, Bool, true, false, ◌||◌, some, List,
  [], ◌∷◌, ◌++◌, append_assoc, arith, if◌then◌else◌, length,
}
use genbuf.InputTools.{status_ok, status_eof}
use genbuf.Reader.{Source, Reading, Kind, Kernel, readable, is_set}

-- one list made of the elements of many, with the order of each kept
pub data Merge {A : Type 0} : List (List A) → List A → Type 0 where
  finished : Merge [] []
  skip :
      (ls ls' : List (List A)) (out : List A) → Merge (ls ++ ls') out → Merge (ls ++ [] ∷ ls') out
  pick :
      (ls ls' : List (List A)) (x : A) (xs out : List A)
      → Merge (ls ++ xs ∷ ls') out
      → Merge (ls ++ (x ∷ xs) ∷ ls') (x ∷ out)

-- some elements of one list
pub Merge-append :
    {A : Type 0} (ls ls' : List (List A)) (xs ys out : List A)
    → Merge (ls ++ ys ∷ ls') out
    → Merge (ls ++ (xs ++ ys) ∷ ls') (xs ++ out)
Merge-append ls ls' [] ys out v = v
Merge-append ls ls' (x ∷ xs) ys out v =
    pick ls ls' x (xs ++ ys) (xs ++ out) (Merge-append ls ls' xs ys out v)

-- What a read of a source does that has lines left: it reports some and keeps the others, and comes
-- nearer to its end; or it is at its end, with none left.
abbrev pub Yields : {S : Type 0} → (S → List (List ℕ) → Type 0) → (S → ℕ) → Kind S → Type 0
Yields {S} pend size kind =
    (t : ℕ) (s : S) (l : List (List ℕ))
    → pend s l
    → (r : Reading S) × (kind t s ≡ some r)
      × (r.added ≡ [])
      × (((r.status ≡ status_ok)
            × ((more : List (List ℕ)) × pend r.handler more
                × (l ≡ r.lines ++ more)
                × (size r.handler < size s)))
          ⊎ ((r.status ≡ status_eof) × (r.lines ≡ []) × (l ≡ [])))

-- a source for each list
unfoldable pub Pends :
    {S : Type 0} → (S → List (List ℕ) → Type 0) → List (Source S) → List (List (List ℕ)) → Type 0
Pends pend [] [] = Unit
Pends pend [] (l ∷ ls) = ⊥
Pends pend (s ∷ rest) [] = ⊥
Pends pend (s ∷ rest) (l ∷ ls) = pend s.handler l × Pends pend rest ls

-- the most reads that are left, the one at the end of each source included
unfoldable pub load : {S : Type 0} → (S → ℕ) → List (Source S) → ℕ
load size [] = 0
load size (s ∷ rest) = suc (size s.handler) + load size rest

unfoldable pub any_set : {S : Type 0} → List (Source S) → List ℕ → Bool
any_set [] fds = false
any_set (s ∷ rest) fds = is_set s.fd fds || any_set rest fds

pub Pends-append :
    {S : Type 0} (pend : S → List (List ℕ) → Type 0) (xs ys : List (Source S))
    (ls ls' : List (List (List ℕ)))
    → Pends pend xs ls
    → Pends pend ys ls'
    → Pends pend (xs ++ ys) (ls ++ ls')
unfolding Pends
Pends-append pend [] ys [] ls' v w = w
Pends-append pend [] ys (l ∷ ls) ls' v w = absurd v
Pends-append pend (x ∷ xs) ys [] ls' v w = absurd v
Pends-append pend (x ∷ xs) ys (l ∷ ls) ls' v w = (v.0, Pends-append pend xs ys ls ls' v.1 w)

pub load-append :
    {S : Type 0} (size : S → ℕ) (xs ys : List (Source S))
    → load size (xs ++ ys) ≡ load size xs + load size ys
unfolding load
load-append size [] ys = omega arith
load-append size (x ∷ xs) ys = omega (arith, load-append size xs ys)

pub load-length : {S : Type 0} (size : S → ℕ) (xs : List (Source S)) → length xs ≤ load size xs
unfolding load
load-length size [] = omega arith
load-length size (x ∷ xs) = omega (arith, load-length size xs)
