-- ===== src/Prelude/Maps.antt =====
-- Go's map[string]string, as an association list: the first pair of a key counts.
use Prim.Native.String.{String}
use mathlib.Core.Option.{Option, none, some}
use mathlib.Core.List.{List, [], ◌∷◌}
use setec.Prelude.Tests.{◌==◌, string_eq, if◌then◌else◌}

abbrev pub StringMap : Type 0
StringMap = List (String × String)

-- v, ok := m[k]
abbrev pub lookup : String → StringMap → Option String
lookup k [] = none
lookup k ((j, v) ∷ m) = if j == k then some v else lookup k m

abbrev text_or_empty : Option String → String
text_or_empty none = ""
text_or_empty (some v) = v

-- m[k]: the empty text when the key is missing.
abbrev pub value_at : StringMap → String → String
value_at m k = text_or_empty (lookup k m)
