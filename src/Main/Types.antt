-- ===== src/Main/Types.antt =====
-- The names of the types on the command line.
use genbuf.Prelude.{
  ℕ, ◌≡◌, ◌≢◌, ◌↔◌, ap₂, Bool, true, ◌&&◌, List, [], ◌∷◌, ◌==◌, arith, if◌then◌else◌,
}
use genbuf.Setup.{IoType, type_udp, type_tcp, type_unix, type_file, type_unknown}
use genbuf.Main.{tolower, strcasecmp, file_name, udp_name, tcp_name, unix_name, parse_type}

-- a text with its capitals as small letters
unfoldable pub lower : List ℕ → List ℕ
lower [] = []
lower (c ∷ cs) = tolower c ∷ lower cs

-- the name of a type in small letters, and for the last a text that is no name
unfoldable pub Names : IoType → List ℕ → Type 0
Names type_file x = x ≡ file_name
Names type_udp x = x ≡ udp_name
Names type_tcp x = x ≡ tcp_name
Names type_unix x = x ≡ unix_name
Names type_unknown x = (x ≢ file_name) × (x ≢ udp_name) × (x ≢ tcp_name) × (x ≢ unix_name)

both : (a b : ℕ) (r : Bool) → (((a == b) && r) ≡ true) ↔ ((a ≡ b) × (r ≡ true))
both a b r = ground arith

cons-cong : (a b : ℕ) (xs ys : List ℕ) → a ∷ xs ≡ b ∷ ys → (a ≡ b) × (xs ≡ ys)
cons-cong a b xs ys e = (cc, cc)

strcasecmp_iff : (s t : List ℕ) → (strcasecmp s t ≡ true) ↔ (lower s ≡ lower t)
unfolding lower
strcasecmp_iff [] [] = ground arith
strcasecmp_iff [] (d ∷ ds) = ground arith
strcasecmp_iff (c ∷ cs) [] = ground arith
strcasecmp_iff (c ∷ cs) (d ∷ ds) =
    let (split, join) = both (tolower c) (tolower d) (strcasecmp cs ds) in
    let (to, from) = strcasecmp_iff cs ds in
    (
      λ e. ap₂ (λ x xs. x ∷ xs) (split e).0 (to (split e).1),
      λ e.
          let (h, more) = cons-cong (tolower c) (tolower d) (lower cs) (lower ds) e in
          join (h, from more),
    )

abbrev first_of : (f u t n : Bool) → IoType
first_of f u t n =
    if f
    then type_file
    else (if u then type_udp else (if t then type_tcp else (if n then type_unix else type_unknown)))

names_lem :
    (x : List ℕ) (f u t n : Bool)
    → (f ≡ true) ↔ (x ≡ file_name)
    → (u ≡ true) ↔ (x ≡ udp_name)
    → (t ≡ true) ↔ (x ≡ tcp_name)
    → (n ≡ true) ↔ (x ≡ unix_name)
    → (ty : IoType) → (first_of f u t n ≡ ty) ↔ Names ty x
unfolding Names
names_lem x f u t n ef eu et en type_file = ground arith
names_lem x f u t n ef eu et en type_udp = ground arith
names_lem x f u t n ef eu et en type_tcp = ground arith
names_lem x f u t n ef eu et en type_unix = ground arith
names_lem x f u t n ef eu et en type_unknown = ground arith

-- parse_type gives a type exactly for the texts that are its name in capital or small letters, and
-- type_unknown exactly for the texts that are the name of no type.
pub parse_type_lem : (s : List ℕ) (ty : IoType) → (parse_type s ≡ ty) ↔ Names ty (lower s)
unfolding parse_type lower
parse_type_lem s ty =
    names_lem (lower s) _ _ _ _ (strcasecmp_iff s file_name) (strcasecmp_iff s udp_name)
      (strcasecmp_iff s tcp_name) (strcasecmp_iff s unix_name) ty
