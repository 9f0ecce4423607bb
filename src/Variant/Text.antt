-- ===== src/Variant/Text.antt =====
-- src/engine/base/variant.c: the texts that it puts out, in ASCII.
use ats.Base.{ℕ, List, [], ◌∷◌}

abbrev pub nil : List ℕ
nil = 110 ∷ 105 ∷ 108 ∷ []

abbrev pub true : List ℕ
true = 116 ∷ 114 ∷ 117 ∷ 101 ∷ []

abbrev pub false : List ℕ
false = 102 ∷ 97 ∷ 108 ∷ 115 ∷ 101 ∷ []

abbrev pub quote : List ℕ
quote = 34 ∷ []

abbrev pub escaped_quote : List ℕ
escaped_quote = 92 ∷ 34 ∷ []

-- the characters backslash and x
abbrev pub hex : List ℕ
hex = 92 ∷ 120 ∷ []

-- "(ext: "
abbrev pub ext : List ℕ
ext = 40 ∷ 101 ∷ 120 ∷ 116 ∷ 58 ∷ 32 ∷ []

abbrev pub ext_end : List ℕ
ext_end = 41 ∷ []

abbrev pub open_array : List ℕ
open_array = 91 ∷ []

abbrev pub close_array : List ℕ
close_array = 93 ∷ []

abbrev pub open_map : List ℕ
open_map = 123 ∷ []

abbrev pub close_map : List ℕ
close_map = 125 ∷ []

-- ", "
abbrev pub comma : List ℕ
comma = 44 ∷ 32 ∷ []

-- "=>"
abbrev pub arrow : List ℕ
arrow = 61 ∷ 62 ∷ []

-- "#<UNKNOWN "
abbrev pub unknown : List ℕ
unknown = 35 ∷ 60 ∷ 85 ∷ 78 ∷ 75 ∷ 78 ∷ 79 ∷ 87 ∷ 78 ∷ 32 ∷ []

abbrev pub space : List ℕ
space = 32 ∷ []

abbrev pub unknown_end : List ℕ
unknown_end = 62 ∷ []
