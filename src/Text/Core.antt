-- ===== src/Text/Core.antt =====
-- `strip`, `split`, `lower`, `isdecimal`, `endswith`, `int` and the order of strings.
use Prim.Native.Nat.{ℕ, zero, suc, ◌+◌, ◌*◌, ◌-◌, ◌/◌, ◌%◌}
use Prim.Native.Char.{Char, code}
use Prim.Native.String.{String, [] as empty, ◌∷◌ as ◌∷ₛ◌, ◌++◌, compare}
use Prim.Native.Nat.{Ordering}
use opendps.Dict.{Dict, nat_key, get_or}
use opendps.Prelude.{
  Bool, true, false, ◌&&◌, ◌||◌, Option, none, some, List, [], ◌∷◌, if◌then◌else◌, nat_leb, nat_beq,
}

-- The characters that `str.strip` takes off: the white space of Unicode.
unfoldable pub is_space : ℕ → Bool
is_space c =
    nat_leb 9 c && nat_leb c 13
    || nat_leb 28 c && nat_leb c 32
    || nat_beq c 133
    || nat_beq c 160
    || nat_beq c 5760
    || nat_leb 8192 c && nat_leb c 8202
    || nat_beq c 8232
    || nat_beq c 8233
    || nat_beq c 8239
    || nat_beq c 8287
    || nat_beq c 12288

-- A string of white space only.
unfoldable pub is_blank : String → Bool
unfolding is_space
is_blank empty = true
is_blank (c ∷ₛ s) = is_space (code c) && is_blank s

unfoldable pub lstrip : String → String
unfolding is_space
lstrip empty = empty
lstrip (c ∷ₛ s) = let rest = lstrip s in if is_space (code c) then rest else c ∷ₛ s

unfoldable pub rstrip : String → String
unfolding is_blank is_space
rstrip empty = empty
rstrip (c ∷ₛ s) =
    let rest = rstrip s in if is_space (code c) && is_blank s then empty else c ∷ₛ rest

unfoldable pub strip : String → String
unfolding lstrip rstrip
strip s = lstrip (rstrip s)

-- The character in front of the first piece.
unfoldable pub prepend : Char → List String → List String
prepend c [] = (c ∷ₛ empty) ∷ []
prepend c (piece ∷ pieces) = (c ∷ₛ piece) ∷ pieces

-- `s.split(separator)`, for the code of a separator of one character.
unfoldable pub split_on : ℕ → String → List String
unfolding prepend
split_on separator empty = empty ∷ []
split_on separator (c ∷ₛ s) =
    let pieces = split_on separator s in
    if nat_beq (code c) separator then empty ∷ pieces else prepend c pieces

-- `s.split(separator, 1)`, none where the separator is not there.
unfoldable pub split_once : ℕ → String → Option (String × String)
split_once separator empty = none
split_once separator (c ∷ₛ s) =
    if nat_beq (code c) separator then some (empty, s) else elim (split_once separator s) [
      | none ↦ none
      | some (front, back) ↦ some (c ∷ₛ front, back)
    ]

-- The ends of a line that `str.splitlines` knows.
unfoldable pub is_line_end : ℕ → Bool
is_line_end c =
    nat_leb 10 c && nat_leb c 13
    || nat_leb 28 c && nat_leb c 30
    || nat_beq c 133
    || nat_leb 8232 c && nat_leb c 8233

unfoldable pub starts_with_lf : String → Bool
starts_with_lf empty = false
starts_with_lf (c ∷ₛ s) = nat_beq (code c) 10

-- A line that ends in front of the others; a CR and the LF after it are one end.
unfoldable pub end_line : Bool → List String → List String
end_line true lines = lines
end_line false lines = empty ∷ lines

-- `s.splitlines()`
unfoldable pub splitlines : String → List String
unfolding is_line_end starts_with_lf end_line prepend
splitlines empty = []
splitlines (c ∷ₛ s) =
    let lines = splitlines s in
    if is_line_end (code c)
    then end_line (nat_beq (code c) 13 && starts_with_lf s) lines
    else prepend c lines

-- An ASCII digit.
unfoldable pub is_digit : ℕ → Bool
is_digit c = nat_leb 48 c && nat_leb c 57

unfoldable pub all_digits : String → Bool
unfolding is_digit
all_digits empty = true
all_digits (c ∷ₛ s) = is_digit (code c) && all_digits s

-- `s.isascii() and s.isdecimal()`, which is false for the empty string.
unfoldable pub is_decimal : String → Bool
unfolding all_digits
is_decimal empty = false
is_decimal (c ∷ₛ s) = all_digits (c ∷ₛ s)

unfoldable pub number_from : ℕ → String → ℕ
number_from n empty = n
number_from n (c ∷ₛ s) = number_from (n * 10 + (code c - 48)) s

-- `int(s)`, for decimal digits.
unfoldable pub to_number : String → ℕ
unfolding number_from
to_number s = number_from 0 s

-- `a <= b`, by the code points.
unfoldable pub text_leb : String → String → Bool
text_leb a b = elim (compare a b) [ Ordering.gt ↦ false | _ ↦ true ]

-- `s.endswith(suffix)`
unfoldable pub ends_with : String → String → Bool
ends_with empty suffix = elim (compare empty suffix) [ Ordering.eq ↦ true | _ ↦ false ]
ends_with (c ∷ₛ s) suffix =
    let rest = ends_with s suffix in
    elim (compare (c ∷ₛ s) suffix) [ Ordering.eq ↦ true | _ ↦ rest ]

-- The code of a letter in lower case. Of the letters outside ASCII only the Kelvin sign has a lower
-- case in ASCII, `k`.
unfoldable pub lower_code : ℕ → ℕ
lower_code c = if nat_leb 65 c && nat_leb c 90 then c + 32 else (if nat_beq c 8490 then 107 else c)

-- `s.lower() == t`, for a `t` in ASCII.
unfoldable pub lower_equals : String → String → Bool
unfolding lower_code
lower_equals empty empty = true
lower_equals empty (c ∷ₛ t) = false
lower_equals (c ∷ₛ s) empty = false
lower_equals (c ∷ₛ s) (d ∷ₛ t) = nat_beq (lower_code (code c)) (code d) && lower_equals s t

-- The digits, by their number.
abbrev pub digit_names : Dict ℕ String
digit_names =
    (0, "0")
    ∷ (1, "1")
    ∷ (2, "2")
    ∷ (3, "3")
    ∷ (4, "4")
    ∷ (5, "5")
    ∷ (6, "6")
    ∷ (7, "7")
    ∷ (8, "8")
    ∷ (9, "9")
    ∷ []

unfoldable pub digit_text : ℕ → String
digit_text n = get_or n "" digit_names

-- The decimal digits; a number has at most as many as it counts, and one.
unfoldable pub digits_text : ℕ → ℕ → String
unfolding digit_text
digits_text zero n = ""
digits_text (suc fuel) n =
    let front = digits_text fuel (n / 10) in
    if nat_leb n 9 then digit_text n else front ++ digit_text (n % 10)

-- `str(n)`
unfoldable pub number_text : ℕ → String
unfolding digits_text
number_text n = digits_text (suc n) n
