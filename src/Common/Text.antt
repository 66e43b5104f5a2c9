-- ===== src/Common/Text.antt =====
-- Texts: decimal printing and small operations of Go's `strings` and `strconv` on native texts.
use Prim.Native.Nat.{ℕ, zero, suc, ◌+◌, ◌-◌, ◌*◌, ◌/◌, ◌%◌, ◌^◌}
use Prim.Native.Char.{Char, code}
use Prim.Native.String.{String, ◌++◌ as ◌+++◌}
use mathlib.Core.Bool.{Bool, true, false, ◌&&◌, ◌||◌}
use mathlib.Core.Option.{Option, none, some}
use mathlib.Core.Path.{◌≡◌, refl}
use mathlib.Core.List.{List, [], ◌∷◌}
use sshbackup.Common.Tests.{ltb, leb, ◌==◌, if◌then◌else◌}
use sshbackup.Common.Int.{ℤ, pos, negsuc}

-- Concatenation of texts; `◌++◌` is kept for lists.
infixr 65 ◌<>◌
abbrev pub ◌<>◌ : String → String → String
s <> t = ◌+++◌ s t

abbrev pub codes : String → List ℕ
codes String.[] = []
codes (String.◌∷◌ c s) = code c ∷ codes s

digit : ℕ → String
digit zero = "0"
digit (suc zero) = "1"
digit (suc (suc zero)) = "2"
digit (suc (suc (suc zero))) = "3"
digit (suc (suc (suc (suc zero)))) = "4"
digit (suc (suc (suc (suc (suc zero))))) = "5"
digit (suc (suc (suc (suc (suc (suc zero)))))) = "6"
digit (suc (suc (suc (suc (suc (suc (suc zero))))))) = "7"
digit (suc (suc (suc (suc (suc (suc (suc (suc zero)))))))) = "8"
digit (suc (suc (suc (suc (suc (suc (suc (suc (suc n))))))))) = "9"

-- The last digit first; the fuel bounds the number of digits.
itoa_from : ℕ → ℕ → String → String
itoa_from zero n acc = acc
itoa_from (suc f) n acc =
    let out = digit (n % 10) <> acc in
    let rest = itoa_from f (n / 10) out in if ltb n 10 then out else rest

-- `%d` of a number that is not negative: a number has at most that many digits and one more.
unfoldable pub itoa : ℕ → String
unfolding itoa_from digit
itoa n = itoa_from (suc n) n ""

-- `%d`.
unfoldable pub itoa_ℤ : ℤ → String
unfolding itoa
itoa_ℤ (pos n) = itoa n
itoa_ℤ (negsuc n) = "-" <> itoa (suc n)

-- `%02d`.
unfoldable pub pad2 : ℕ → String
unfolding itoa
pad2 n = if ltb n 10 then "0" <> itoa n else itoa n

-- `strings.Join`.
unfoldable pub join : List String → String → String
join [] sep = ""
join (x ∷ []) sep = x
join (x ∷ y ∷ xs) sep = x <> sep <> join (y ∷ xs) sep

-- `unicode.IsSpace`.
unfoldable pub is_space : ℕ → Bool
is_space c =
    c == 32
    || (leb 9 c && leb c 13)
    || c == 0x85
    || c == 0xa0
    || c == 0x1680
    || (leb 0x2000 c && leb c 0x200a)
    || c == 0x2028
    || c == 0x2029
    || c == 0x202f
    || c == 0x205f
    || c == 0x3000

-- Whether a text holds nothing but white space: `strings.TrimSpace(s) == ""`.
unfoldable pub is_blank : String → Bool
unfolding is_space
is_blank String.[] = true
is_blank (String.◌∷◌ c s) = if is_space (code c) then is_blank s else false

-- `strings.TrimLeft` of white space.
trim_left : String → String
unfolding is_space
trim_left String.[] = ""
trim_left (String.◌∷◌ c s) = if is_space (code c) then trim_left s else String.◌∷◌ c s

-- `strings.TrimRight` of white space.
trim_right : String → String
unfolding is_blank
trim_right String.[] = ""
trim_right (String.◌∷◌ c s) = if is_blank (String.◌∷◌ c s) then "" else String.◌∷◌ c (trim_right s)

-- `strings.TrimSpace`.
unfoldable pub trim_space : String → String
unfolding trim_left trim_right
trim_space s = trim_right (trim_left s)

is_digit : ℕ → Bool
is_digit c = leb 48 c && leb c 57

-- The number that decimal digits spell; `none` for the empty text or another character.
atoi_from : ℕ → String → Option ℕ
unfolding is_digit
atoi_from n String.[] = some n
atoi_from n (String.◌∷◌ c s) =
    let rest = atoi_from (10 * n + (code c - 48)) s in if is_digit (code c) then rest else none

unfoldable pub atoi_ℕ : String → Option ℕ
unfolding atoi_from
atoi_ℕ String.[] = none
atoi_ℕ (String.◌∷◌ c s) = atoi_from 0 (String.◌∷◌ c s)

in_int64 : Bool → Option ℕ → Option ℤ
in_int64 minus none = none
in_int64 false (some n) = if ltb n (2 ^ 63) then some (pos n) else none
in_int64 true (some n) =
    if leb n (2 ^ 63) then some (if n == 0 then pos 0 else negsuc (n - 1)) else none

-- `strconv.ParseInt(s, 10, 64)`.
unfoldable pub parse_int : String → Option ℤ
unfolding atoi_ℕ in_int64
parse_int String.[] = none
parse_int (String.◌∷◌ c s) =
    if code c == 45
    then in_int64 true (atoi_ℕ s)
    else if code c == 43
    then in_int64 false (atoi_ℕ s)
    else in_int64 false (atoi_ℕ (String.◌∷◌ c s))

parse_int_test : parse_int "-120" ≡ some (negsuc 119)
unfolding parse_int
parse_int_test = refl

hex_digit : ℕ → String
unfolding digit
hex_digit n =
    if ltb n 10
    then digit n
    else if n == 10
    then "a"
    else if n == 11
    then "b"
    else if n == 12
    then "c"
    else if n == 13
    then "d"
    else if n == 14
    then "e"
    else "f"

quote_char : Char → String
unfolding hex_digit
quote_char c =
    let n = code c in
    if n == 34
    then "\\\""
    else if n == 92
    then "\\\\"
    else if n == 7
    then "\\a"
    else if n == 8
    then "\\b"
    else if n == 12
    then "\\f"
    else if n == 10
    then "\\n"
    else if n == 13
    then "\\r"
    else if n == 9
    then "\\t"
    else if n == 11
    then "\\v"
    else if ltb n 32 || n == 127
    then "\\x" <> hex_digit (n / 16) <> hex_digit (n % 16)
    else String.◌∷◌ c String.[]

quote_body : String → String
unfolding quote_char
quote_body String.[] = ""
quote_body (String.◌∷◌ c s) = quote_char c <> quote_body s

-- `%q`, for texts whose characters above U+007F are printable.
unfoldable pub quote : String → String
unfolding quote_body
quote s = "\"" <> quote_body s <> "\""

quote_test : quote "a\"b" ≡ "\"a\\\"b\""
unfolding quote
quote_test = refl

text_test : itoa 10240 <> pad2 7 <> trim_space "  a b " ≡ "1024007a b"
unfolding itoa pad2 trim_space
text_test = refl
