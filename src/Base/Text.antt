-- ===== src/Base/Text.antt =====
-- Go's `strings` functions and string concatenation, over the native texts.
use Prim.Native.String.{String, ◌++◌}
use mathlib.Core.Bool.{Bool, ◌||◌}
use mathlib.Core.List.{List, [], ◌∷◌}
use Prim.Native.Nat.{ℕ, zero, suc, ◌/◌, ◌%◌}
use Prim.Native.Char.{Char, code}
use text.Mathlib.Text.{◌==◌, starts_with}
use dpf_hcp_bridge_operator.Base.Tests.{if◌then◌else◌, nat_eq, ltb}

-- `a + b`
unfoldable pub append : String → String → String
append a b = a ++ b

-- `fmt.Sprintf` of a format that has only `%s` and `%v` verbs, as the list of its pieces.
pub sprintf : List String → String
unfolding append
sprintf [] = ""
sprintf (s ∷ ss) = append s (sprintf ss)

-- `strings.HasSuffix(s, suffix)`
unfoldable pub has_suffix : String → String → Bool
has_suffix String.[] suffix = "" == suffix
has_suffix (String.◌∷◌ c s) suffix = String.◌∷◌ c s == suffix || has_suffix s suffix

-- `strings.TrimSuffix(s, suffix)`: the text before the one place where `s` ends in `suffix`.
unfoldable pub trim_suffix : String → String → String
trim_suffix String.[] suffix = ""
trim_suffix (String.◌∷◌ c s) suffix =
    let rest = trim_suffix s suffix in if String.◌∷◌ c s == suffix then "" else String.◌∷◌ c rest

-- `strings.Contains(s, part)` is a search for a place where `part` begins.
unfoldable pub contains : String → String → Bool
contains String.[] part = starts_with "" part
contains (String.◌∷◌ c s) part = starts_with (String.◌∷◌ c s) part || contains s part

-- `strings.Join(parts, separator)`
unfoldable pub join : String → List String → String
join separator [] = ""
join separator (x ∷ []) = x
join separator (x ∷ y ∷ rest) = append x (append separator (join separator (y ∷ rest)))

unfoldable pub prepend : Char → List String → List String
prepend c [] = String.◌∷◌ c "" ∷ []
prepend c (x ∷ xs) = String.◌∷◌ c x ∷ xs

-- `strings.Split(s, separator)` at a separator of one character, by its code point.
unfoldable pub split : ℕ → String → List String
unfolding prepend
split separator String.[] = "" ∷ []
split separator (String.◌∷◌ c s) =
    let rest = split separator s in if nat_eq (code c) separator then "" ∷ rest else prepend c rest

digit : ℕ → String
digit n =
    if nat_eq n 0
    then "0"
    else if nat_eq n 1
    then "1"
    else if nat_eq n 2
    then "2"
    else if nat_eq n 3
    then "3"
    else if nat_eq n 4
    then "4"
    else if nat_eq n 5
    then "5"
    else if nat_eq n 6
    then "6"
    else if nat_eq n 7
    then "7"
    else if nat_eq n 8
    then "8"
    else "9"

-- The digits of `n`. The fuel, `n + 1`, is more than the number of its digits.
unfoldable pub decimal_digits : ℕ → ℕ → String
unfolding append digit
decimal_digits zero n = ""
decimal_digits (suc fuel) n =
    let rest = decimal_digits fuel (n / 10) in
    if ltb n 10 then digit n else append rest (digit (n % 10))

-- `%d`
unfoldable pub decimal : ℕ → String
unfolding decimal_digits
decimal n = decimal_digits (suc n) n
