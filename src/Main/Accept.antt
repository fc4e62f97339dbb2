-- ===== src/Main/Accept.antt =====
-- Command lines that main() takes.
use genbuf.Prelude.{ℕ, ◌≡◌, ◌≢◌, ◌⊎◌, List, [], ◌∷◌}
use genbuf.Output.Command.{World}
use genbuf.Logger
use genbuf.Setup.{IoType, type_file, type_unix, type_unknown}
use genbuf.Main.{parse_type, Opt, short_of, Setting, Taken, takes}
use genbuf.Main.Options.Changes.{given, Consistent}

-- a type whose sources lie on this machine
abbrev pub Local : IoType → Type 0
Local ty = (ty ≡ type_file) ⊎ (ty ≡ type_unix)

-- An option that main() knows, with a type that it knows.
pub data Valid (opt : Opt) : Type 0 where
  verbose : short_of opt ≡ 118 → Valid opt
  backlog : short_of opt ≡ 98 → Valid opt
  source : short_of opt ≡ 115 → Valid opt
  dest : short_of opt ≡ 100 → Valid opt
  input_type : short_of opt ≡ 105 → Local (parse_type opt.optarg) → Valid opt
  output_type : short_of opt ≡ 111 → parse_type opt.optarg ≢ type_unknown → Valid opt

abbrev pub AllValid : List Opt → Type 0
AllValid [] = Unit
AllValid (opt ∷ opts) = Valid opt × AllValid opts

-- Sources can be made of the type in force, and as many destinations as are given already.
abbrev pub Ready : ℕ → Setting → Type 0
Ready n s = Local s.in_type × Consistent s × (given s.out_res ≡ n)

abbrev Takes : (Setting → Type 0) → Taken → Type 0
Takes P t = (s : Setting) × (w : World) × (t ≡ takes s w) × P s
