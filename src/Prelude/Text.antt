-- ===== src/Prelude/Text.antt =====
-- Methods of JavaScript strings over the native texts: `trim`, the tests of truth, `join`.
use Prim.Native.Nat.{ℕ}
use Prim.Native.Char.{Char, code}
use Prim.Native.String
use Prim.Native.String.{String, [], ◌∷◌}
use mathlib.Core.Bool.{Bool, false, not, ◌||◌, ◌&&◌}
use mathlib.Core.List.{List}
use mathlib.Core.Option.{Option, none, some}
use text.Mathlib.Text.{◌==◌ as str_eq}
use asl_bissieux.Prelude.Tests.{◌==◌, leb, if◌then◌else◌}

-- White space and line terminators of ECMAScript.
abbrev pub is_space : ℕ → Bool
is_space c =
    (leb 9 c && leb c 13)
    || (c == 32)
    || (c == 160)
    || (c == 5760)
    || (leb 8192 c && leb c 8202)
    || (c == 8232)
    || (c == 8233)
    || (c == 8239)
    || (c == 8287)
    || (c == 12288)
    || (c == 65279)

unfoldable pub trim_start : String → String
trim_start [] = []
trim_start (c ∷ s) = let rest = trim_start s in if is_space (code c) then rest else c ∷ s

abbrev keep_unless_empty : Char → String → String
keep_unless_empty c [] = if is_space (code c) then [] else c ∷ []
keep_unless_empty c (d ∷ s) = c ∷ d ∷ s

unfoldable pub trim_end : String → String
trim_end [] = []
trim_end (c ∷ s) = keep_unless_empty c (trim_end s)

unfoldable pub trim : String → String
unfolding trim_start trim_end
trim s = trim_end (trim_start s)

-- `!!text`
abbrev pub has_text : Option String → Bool
has_text none = false
has_text (some a) = not (str_eq a "")

-- `filter(Boolean)`
unfoldable pub present : List (Option String) → List String
present List.[] = List.[]
present (List.◌∷◌ none xs) = present xs
present (List.◌∷◌ (some x) xs) =
    let rest = present xs in if str_eq x "" then rest else List.◌∷◌ x rest

-- `join(' ')`
unfoldable pub join : List String → String
join List.[] = ""
join (List.◌∷◌ x List.[]) = x
join (List.◌∷◌ x (List.◌∷◌ y xs)) = String.◌++◌ x (String.◌++◌ " " (join (List.◌∷◌ y xs)))

-- `a || b`
abbrev pub or_else : String → String → String
or_else a b = if str_eq a "" then b else a
