-- ===== src/NetTools/Tests.antt =====
-- A resource string with a host, and parse_resource_spec_lem there.
use genbuf.Prelude.{
  ℕ, ◌+◌, ◌*◌, ◌-◌, ◌≡◌, ◌&&◌, refl, true, none, some, List, [], ◌∷◌, ◌++◌, arith, leb,
  if◌then◌else◌,
}
use genbuf.Sys.{success}
use genbuf.NetTools.{Net, colon, parse_resource_spec}
use genbuf.NetTools.Resource.{HasNoColon, parse_resource_spec_lem}

-- the number that a text begins with, and the text behind it
abbrev digits : ℕ → List ℕ → ℕ × List ℕ
digits n [] = (n, [])
digits n (c ∷ cs) =
    let rest = digits (n * 10 + (c - 48)) cs in if leb 48 c && leb c 57 then rest else (n, c ∷ cs)

abbrev test_net : Net
test_net = record {
  strtol = digits 0;
  gethostbyname2 = λ t ip. none;
  socket = λ t. some 5;
  setsockopt = λ t fd. true;
  connect = λ t fd. none;
  close = λ t fd. none;
  errno = λ t. success;
}

-- "::1" and "80"
abbrev local : List ℕ
local = 58 ∷ 58 ∷ 49 ∷ []

abbrev eighty : List ℕ
eighty = 56 ∷ 48 ∷ []

eighty-HasNoColon : HasNoColon eighty
unfolding HasNoColon
eighty-HasNoColon = (λ q. omega (arith, q), (λ q. omega (arith, q), tt))

parse_resource_spec_lem_example :
    (parse_resource_spec test_net (local ++ (colon ∷ eighty)) ≡ some (some local, 80))
    × (parse_resource_spec test_net eighty ≡ some (none, 80))
parse_resource_spec_lem_example =
    parse_resource_spec_lem test_net local eighty 80 eighty-HasNoColon refl
