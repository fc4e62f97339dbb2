-- ===== src/Prelude/Lists.antt =====
-- Lists measured and cut by native numbers, under the library's names.
use Prim.Native.Nat.{ℕ, zero, suc, ◌+◌, ◌-◌, ◌≤◌, min}
use mathlib.Core.Path.{◌≡◌, refl, ap}
use mathlib.Core.List.{List, [], ◌∷◌, ◌++◌}
use mathlib.Core.Option.{Option, none, some}
use native.Mathlib.Omega.{arith}

suc-add : (a b : ℕ) → suc a + b ≡ suc (a + b)
suc-add a b = omega arith

zero-add : (b : ℕ) → 0 + b ≡ b
zero-add b = omega arith

module _ {ℓ} {A : Type ℓ} where
  abbrev pub length : List A → ℕ
  length [] = 0
  length (x ∷ xs) = suc (length xs)

  abbrev pub get_elem? : List A → ℕ → Option A
  get_elem? [] i = none
  get_elem? (x ∷ xs) zero = some x
  get_elem? (x ∷ xs) (suc i) = get_elem? xs i

  abbrev pub take : ℕ → List A → List A
  take zero xs = []
  take (suc n) [] = []
  take (suc n) (x ∷ xs) = x ∷ take n xs

  abbrev pub drop : ℕ → List A → List A
  drop zero xs = xs
  drop (suc n) [] = []
  drop (suc n) (x ∷ xs) = drop n xs

  abbrev pub replicate : ℕ → A → List A
  replicate zero a = []
  replicate (suc n) a = a ∷ replicate n a

  abbrev pub concat : List (List A) → List A
  concat [] = []
  concat (x ∷ xs) = x ++ concat xs

module _ {ℓ} {A : Type ℓ} where
  pub length-append : (xs ys : List A) → length (xs ++ ys) ≡ length xs + length ys
  length-append [] ys = omega arith
  length-append (x ∷ xs) ys = omega (arith, length-append xs ys)

  pub length-replicate : (n : ℕ) (a : A) → length (replicate n a) ≡ n
  length-replicate zero a = refl
  length-replicate (suc n) a = ap suc (length-replicate n a)

  pub length-take : (n : ℕ) (xs : List A) → length (take n xs) ≡ min n (length xs)
  length-take zero xs = omega arith
  length-take (suc n) [] = omega arith
  length-take (suc n) (x ∷ xs) = omega (arith, length-take n xs)

  pub length-drop : (n : ℕ) (xs : List A) → length (drop n xs) ≡ length xs - n
  length-drop zero xs = omega arith
  length-drop (suc n) [] = omega arith
  length-drop (suc n) (x ∷ xs) = omega (arith, length-drop n xs)

  pub take-append-drop : (n : ℕ) (xs : List A) → take n xs ++ drop n xs ≡ xs
  take-append-drop zero xs = refl
  take-append-drop (suc n) [] = refl
  take-append-drop (suc n) (x ∷ xs) = ap (◌∷◌ x) (take-append-drop n xs)

  pub take-append_left : (xs ys : List A) → take (length xs) (xs ++ ys) ≡ xs
  take-append_left [] ys = refl
  take-append_left (x ∷ xs) ys = ap (◌∷◌ x) (take-append_left xs ys)

  pub drop-append_left : (xs ys : List A) → drop (length xs) (xs ++ ys) ≡ ys
  drop-append_left [] ys = refl
  drop-append_left (x ∷ xs) ys = drop-append_left xs ys

  -- A list that two appends write is cut by the shorter of the two heads.
  pub append_split :
      (xs ys l r : List A)
      → xs ++ ys ≡ l ++ r
      → length l ≤ length xs
      → (m : List A) × (xs ≡ l ++ m) × (r ≡ m ++ ys)
  append_split xs ys [] r e h = (xs, refl, cc)
  append_split [] ys (c ∷ l) r e h = absurd (omega arith)
  append_split (x ∷ xs) ys (c ∷ l) r e h =
      let (m, p, q) = append_split xs ys l r (ground arith) (omega arith) in (m, ground arith, q)

  pub cut :
      (n : ℕ) (xs : List A)
      → n ≤ length xs
      → (l : List A) × (r : List A) × (xs ≡ l ++ r) × (n ≡ length l)
  cut zero xs h = ([], xs, refl, refl)
  cut (suc n) [] h = absurd (omega arith)
  cut (suc n) (x ∷ xs) h =
      let (l, r, e, k) = cut n xs (omega arith) in (x ∷ l, r, ap (◌∷◌ x) e, omega arith)

  pub take_all : (n : ℕ) (xs : List A) → length xs ≤ n → take n xs ≡ xs
  take_all zero [] h = refl
  take_all zero (x ∷ xs) h = absurd (omega arith)
  take_all (suc n) [] h = refl
  take_all (suc n) (x ∷ xs) h = ap (◌∷◌ x) (take_all n xs (omega arith))

  pub take_add : (a b : ℕ) (xs : List A) → take a xs ++ take b (drop a xs) ≡ take (a + b) xs
  take_add zero b xs = rw zero-add
  take_add (suc a) zero [] = rw (suc-add a 0)
  take_add (suc a) (suc b) [] = rw (suc-add a (suc b))
  take_add (suc a) b (x ∷ xs) = rw (suc-add a b) (ap (◌∷◌ x) (take_add a b xs))

  pub drop_add : (a b : ℕ) (xs : List A) → drop a (drop b xs) ≡ drop (b + a) xs
  drop_add a zero xs = rw zero-add
  drop_add zero (suc b) [] = rw (suc-add b 0)
  drop_add (suc a) (suc b) [] = rw (suc-add b (suc a))
  drop_add a (suc b) (x ∷ xs) = rw (suc-add b a) (drop_add a b xs)
