-- ===== src/NetTools/Resource.antt =====
-- parse_resource_spec: what it makes of a resource string with a host and of one without.
use genbuf.Prelude.{ℕ, ◌≡◌, ◌≢◌, refl, none, some, List, [], ◌∷◌, ◌++◌, arith}
use genbuf.NetTools.{Net, colon, host_cons, split_host, whole_number, parse_resource_spec}

-- a text in which no character is a ':'
unfoldable pub HasNoColon : List ℕ → Type 0
HasNoColon [] = Unit
HasNoColon (c ∷ cs) = (c ≢ colon) × HasNoColon cs

split_host-number : (cs : List ℕ) → HasNoColon cs → split_host cs ≡ (none, cs)
unfolding split_host host_cons HasNoColon
split_host-number [] h = refl
split_host-number (c ∷ cs) (k, h) = rw (split_host-number cs h) (ground arith)

split_host-append :
    (ip number : List ℕ)
    → HasNoColon number
    → split_host (ip ++ (colon ∷ number)) ≡ (some ip, number)
unfolding split_host host_cons
split_host-append [] number h = rw (split_host-number number h) (ground arith)
split_host-append (c ∷ ip) number h = rw (split_host-append ip number h) refl

-- A host, a ':' and a text that strtol reads to its end parse to the host and the number, and that
-- text alone to the number, the host left open. The host may have a ':' and the text has none.
pub parse_resource_spec_lem :
    (net : Net) (ip number : List ℕ) (port : ℕ)
    → HasNoColon number
    → net.strtol number ≡ (port, [])
    → (parse_resource_spec net (ip ++ (colon ∷ number)) ≡ some (some ip, port))
      × (parse_resource_spec net number ≡ some (none, port))
unfolding parse_resource_spec whole_number
parse_resource_spec_lem net ip number port h q =
    (rw (split_host-append ip number h) (rw q refl), rw (split_host-number number h) (rw q refl))
