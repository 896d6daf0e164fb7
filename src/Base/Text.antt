-- ===== src/Base/Text.antt =====
-- Go's string concatenation, under a name, `strings.EqualFold` on the letters of ASCII and
-- `strings.TrimSpace`.
use Prim.Native.Char.{code}
use Prim.Native.Nat.{ℕ, ◌+◌}
use Prim.Native.String.{String, ◌++◌}
use text.Mathlib.Text.{◌==◌}
use mathlib.Core.Bool.{Bool, true, false, ◌&&◌, ◌||◌}
use mathlib.Core.List.{List, [], ◌∷◌}
use algo_treading.Base.Tests.{leb, eqb, if◌then◌else◌}

abbrev pub append : String → String → String
append s t = s ++ t

abbrev codes_of : String → List ℕ
codes_of String.[] = []
codes_of (String.◌∷◌ c s) = code c ∷ codes_of s

-- The small letter for a capital letter of ASCII, and any other code for itself.
unfoldable fold_code : ℕ → ℕ
fold_code n = if leb 65 n && leb n 90 then n + 32 else n

same_codes : List ℕ → List ℕ → Bool
unfolding fold_code
same_codes [] [] = true
same_codes (m ∷ ms) (n ∷ ns) = eqb (fold_code m) (fold_code n) && same_codes ms ns
same_codes _ _ = false

unfoldable pub equal_fold : String → String → Bool
unfolding same_codes
equal_fold s t = same_codes (codes_of s) (codes_of t)

-- A character that `unicode.IsSpace` accepts in Latin-1.
is_space : ℕ → Bool
is_space n = leb 9 n && leb n 13 || eqb n 32 || eqb n 133 || eqb n 160

trim_start : String → String
unfolding is_space
trim_start String.[] = ""
trim_start (String.◌∷◌ c s) =
    let rest = trim_start s in if is_space (code c) then rest else String.◌∷◌ c s

trim_end : String → String
unfolding is_space
trim_end String.[] = ""
trim_end (String.◌∷◌ c s) =
    let rest = trim_end s in if is_space (code c) && rest == "" then "" else String.◌∷◌ c rest

unfoldable pub trim_space : String → String
unfolding trim_start trim_end
trim_space s = trim_end (trim_start s)

-- Whether a status, put in capitals, is one of the list.
unfoldable pub is_one_of : List String → String → Bool
is_one_of [] s = false
is_one_of (name ∷ names) s = equal_fold s name || is_one_of names s
