-- ===== src/Rules/Signals/Window.antt =====
-- services/rules-engine/internal/consumer/handler.go: `isWithinTradeWindow`. The `%d` of `fmt.Sscanf` skips
-- blanks, takes a sign and digits, and refuses a number outside int64; sums of minutes are exact.
use Prim.Native.Char.{code}
use algo_treading.Base.{
  ℕ, zero, suc, ◌+◌, ◌-◌, ◌*◌, ◌^◌, Bool, true, ◌&&◌, ◌||◌, String, ◌==◌, List, [], ◌∷◌, Option,
  none, some, eqb, leb, if◌then◌else◌,
}
use algo_treading.Base.Int.{ℤ, pos, negsuc, ◌+ℤ◌, ◌*ℤ◌, leb_ℤ}

char_codes : String → List ℕ
char_codes String.[] = []
char_codes (String.◌∷◌ c s) = code c ∷ char_codes s

-- A blank that does not end the line.
abbrev is_blank : ℕ → Bool
is_blank n = eqb n 9 || leb 11 n && leb n 13 || eqb n 32 || eqb n 133 || eqb n 160

skip_blanks : List ℕ → List ℕ
skip_blanks [] = []
skip_blanks (c ∷ cs) = let rest = skip_blanks cs in if is_blank c then rest else c ∷ cs

-- The number that the digits at the front make, after those already read, and what follows them.
read_digits : ℕ → List ℕ → ℕ × List ℕ
read_digits n [] = (n, [])
read_digits n (c ∷ cs) =
    let rest = read_digits (n * 10 + (c - 48)) cs in
    if leb 48 c && leb c 57 then rest else (n, c ∷ cs)

-- At least one digit, below a bound.
read_number : ℕ → List ℕ → Option (ℕ × List ℕ)
unfolding read_digits
read_number bound [] = none
read_number bound (c ∷ cs) =
    let all = read_digits 0 (c ∷ cs) in
    if leb 48 c && leb c 57 && leb (suc all.0) bound then some all else none

abbrev as_pos : Option (ℕ × List ℕ) → Option (ℤ × List ℕ)
as_pos none = none
as_pos (some (n, rest)) = some (pos n, rest)

abbrev as_neg : Option (ℕ × List ℕ) → Option (ℤ × List ℕ)
as_neg none = none
as_neg (some (zero, rest)) = some (pos 0, rest)
as_neg (some (suc n, rest)) = some (negsuc n, rest)

read_signed : List ℕ → Option (ℤ × List ℕ)
unfolding read_number
read_signed [] = none
read_signed (c ∷ cs) =
    if eqb c 43
    then as_pos (read_number (2 ^ 63) cs)
    else if eqb c 45
    then as_neg (read_number (2 ^ 63 + 1) cs)
    else as_pos (read_number (2 ^ 63) (c ∷ cs))

-- The format `%d`.
read_int : List ℕ → Option (ℤ × List ℕ)
unfolding read_signed skip_blanks
read_int cs = read_signed (skip_blanks cs)

abbrev with_minutes : ℤ → Option (ℤ × List ℕ) → Option ℤ
with_minutes hours none = none
with_minutes hours (some (minutes, rest)) = some (◌*ℤ◌ hours (pos 60) +ℤ minutes)

after_hours : Option (ℤ × List ℕ) → Option ℤ
unfolding read_int
after_hours none = none
after_hours (some (hours, [])) = none
after_hours (some (hours, c ∷ cs)) = if eqb c 58 then with_minutes hours (read_int cs) else none

-- `parseHHMM`, in minutes since midnight.
unfoldable pub parse_hhmm : String → Option ℤ
unfolding after_hours read_int char_codes
parse_hhmm s = after_hours (read_int (char_codes s))

unfoldable pub in_window : Option ℤ → Option ℤ → ℕ → Bool
in_window (some start) (some end) now = leb_ℤ start (pos now) && leb_ℤ (pos now) end
in_window _ _ now = true

-- The last argument is the minute of the day in India.
unfoldable pub is_within_trade_window : String → String → ℕ → Bool
unfolding in_window parse_hhmm
is_within_trade_window start end now =
    if start == "" || end == "" then true else in_window (parse_hhmm start) (parse_hhmm end) now
