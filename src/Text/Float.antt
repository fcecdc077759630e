-- ===== src/Text/Float.antt =====
-- `float(text)` and `int(text)`.
use Prim.Native.Nat.{ℕ, zero, suc, ◌+◌ as ◌+ₙ◌, ◌*◌ as ◌*ₙ◌, ◌-◌ as ◌-ₙ◌}
use Prim.Native.Char.{Char, code}
use Prim.Native.String.{String, [] as empty, ◌∷◌ as ◌∷ₛ◌}
use opendps.Prelude.{◌||◌, Option, none, some, if◌then◌else◌, nat_beq}
use opendps.Num.{leb, ℚ, ◌*◌, ◌/◌, int, neg}
use opendps.Text.{strip, lower_equals, is_decimal, to_number}
use opendps.Json.{ℤ, pos, negsuc}
use opendps.Text.Core.{is_digit}

-- A float that a text may denote; the sign of an infinity is not kept.
pub data Float : Type 0 where
  finite : ℚ → Float
  infinite nan : Float

-- What stood before a character.
pub data Before : Type 0 where
  other digit underscore : Before

-- An underscore stands between two digits only.
unfoldable next : Before → ℕ → Option Before
unfolding is_digit
next digit c =
    if is_digit c then some digit else (if nat_beq c 95 then some underscore else some other)
next underscore c = if is_digit c then some digit else none
next other c = if is_digit c then some digit else (if nat_beq c 95 then none else some other)

unfoldable keep : Char → Before → String → String
keep c underscore s = s
keep c before s = c ∷ₛ s

-- The text without its underscores, where each is in its place.
unfoldable drop_underscores : Before → String → Option String
unfolding next keep
drop_underscores underscore empty = none
drop_underscores before empty = some empty
drop_underscores before (c ∷ₛ s) = elim (next before (code c)) [
  | none ↦ none
  | some before' ↦ elim (drop_underscores before' s) [
    | none ↦ none
    | some t ↦ some (keep c before' t)
  ]
]

-- The digits in front, read on from a number: the number, how many they are, and what follows.
unfoldable read_digits : ℕ → ℕ → String → ℕ × (ℕ × String)
unfolding is_digit
read_digits value count empty = (value, (count, empty))
read_digits value count (c ∷ₛ s) =
    let longer = read_digits (value *ₙ 10 +ₙ (code c -ₙ 48)) (suc count) s in
    if is_digit (code c) then longer else (value, (count, c ∷ₛ s))

unfoldable power_of_ten : ℕ → ℚ
power_of_ten zero = int 1
power_of_ten (suc n) = int 10 * power_of_ten n

-- The digits of an exponent end the text.
unfoldable exponent_end : ℕ × (ℕ × String) → Option ℕ
exponent_end (value, (zero, s)) = none
exponent_end (value, (suc n, empty)) = some value
exponent_end (value, (suc n, c ∷ₛ s)) = none

unfoldable times_power : ℚ → Option ℕ → Option ℚ
unfolding power_of_ten
times_power m none = none
times_power m (some e) = some (m * power_of_ten e)

unfoldable over_power : ℚ → Option ℕ → Option ℚ
unfolding power_of_ten
over_power m none = none
over_power m (some e) = some (m / power_of_ten e)

-- What follows the `e`, with its sign.
unfoldable signed_exponent : ℚ → String → Option ℚ
unfolding times_power over_power exponent_end read_digits
signed_exponent m empty = none
signed_exponent m (c ∷ₛ s) =
    if nat_beq (code c) 45
    then over_power m (exponent_end (read_digits 0 0 s))
    else (if nat_beq (code c) 43
        then times_power m (exponent_end (read_digits 0 0 s))
        else times_power m (exponent_end (read_digits 0 0 (c ∷ₛ s))))

unfoldable exponent : ℚ → String → Option ℚ
unfolding signed_exponent
exponent m empty = some m
exponent m (c ∷ₛ s) =
    if nat_beq (code c) 101 || nat_beq (code c) 69 then signed_exponent m s else none

-- The number with so many digits behind the point; there is a digit before it or behind it.
unfoldable mantissa : ℕ → ℕ × (ℕ × String) → Option ℚ
unfolding exponent power_of_ten
mantissa whole (value, (places, rest)) =
    if nat_beq (whole +ₙ places) 0 then none else exponent (int value / power_of_ten places) rest

-- What follows the digits of the whole part.
unfoldable fraction : ℕ × (ℕ × String) → Option ℚ
unfolding mantissa read_digits
fraction (value, (whole, empty)) = mantissa whole (value, (0, empty))
fraction (value, (whole, c ∷ₛ s)) =
    if nat_beq (code c) 46
    then mantissa whole (read_digits value 0 s)
    else mantissa whole (value, (0, c ∷ₛ s))

unfoldable doubled : ℕ → ℕ → ℕ
doubled n zero = n
doubled n (suc k) = 2 *ₙ doubled n k

-- The least number that a float rounds to infinity: `2 ** 1024 - 2 ** 970`.
unfoldable overflow : ℕ
unfolding doubled
overflow = doubled (doubled 1 54 -ₙ 1) 970

unfoldable as_float : Option ℚ → Option Float
unfolding overflow
as_float none = none
as_float (some q) = if leb (int overflow) q then some infinite else some (finite q)

unfoldable unsigned : Option String → Option Float
unfolding as_float fraction read_digits lower_equals
unsigned none = none
unsigned (some s) =
    if lower_equals s "inf" || lower_equals s "infinity"
    then some infinite
    else (if lower_equals s "nan" then some nan else as_float (fraction (read_digits 0 0 s)))

unfoldable negated : Option Float → Option Float
negated (some (finite q)) = some (finite (neg q))
negated x = x

unfoldable signed : Option String → Option Float
unfolding unsigned negated
signed none = none
signed (some empty) = none
signed (some (c ∷ₛ s)) =
    if nat_beq (code c) 45
    then negated (unsigned (some s))
    else (if nat_beq (code c) 43 then unsigned (some s) else unsigned (some (c ∷ₛ s)))

-- `float(text)`, none for a ValueError. The digits are those of ASCII.
unfoldable pub to_float : String → Option Float
unfolding signed drop_underscores strip
to_float text = signed (drop_underscores other (strip text))

unfoldable pub of_digits : (ℕ → ℤ) → Option String → Option ℤ
unfolding is_decimal to_number
of_digits sign none = none
of_digits sign (some s) = if is_decimal s then some (sign (to_number s)) else none

-- `-n`
unfoldable pub minus : ℕ → ℤ
minus zero = pos 0
minus (suc n) = negsuc n

unfoldable pub signed_int : Option String → Option ℤ
unfolding of_digits minus
signed_int none = none
signed_int (some empty) = none
signed_int (some (c ∷ₛ s)) =
    if nat_beq (code c) 45
    then of_digits minus (some s)
    else (if nat_beq (code c) 43 then of_digits pos (some s) else of_digits pos (some (c ∷ₛ s)))

-- `int(text)`, none for a ValueError, with the digits of ASCII.
unfoldable pub to_int : String → Option ℤ
unfolding signed_int drop_underscores strip
to_int text = signed_int (drop_underscores other (strip text))
