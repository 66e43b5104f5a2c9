-- ===== src/Store/Convert.antt =====
-- server/internal/store/convert.go: how the store writes values into columns and reads them back.
-- `time.Time.Format` and `time.Parse` are parameters, and so are
-- `time.Duration.Seconds` and the error of `strconv.Atoi`; the other conversions are the file's own.
use Prim.Native.Char.{Char, code}
use sshbackup.Common.{
  ℕ, String, ℤ, pos, itoa_ℤ, parse_int, join, Bool, true, false, not, Option, none, some, List, [],
  ◌∷◌, ◌==◌, if◌then◌else◌, is_zero,
}
use sshbackup.Calendar.{Time}
use sshbackup.Domain.{Error, Result, ok, err}

-- `t.UTC().Format(timeLayout)`, and `time.Parse(timeLayout, s)` with the `UTC` after it.
pub record Formats : Type 0 where
  pub format_time : Time → String
  pub parse_time : String → Result Time
  -- `int(d.Seconds())` of a duration in nanoseconds.
  pub whole_seconds : ℤ → ℤ
  -- The error of `strconv.Atoi` on a text.
  pub atoi_error : String → Error

abbrev pub format_time_ptr : Formats → Option Time → Option String
format_time_ptr c none = none
format_time_ptr c (some t) = some (c.format_time t)

abbrev pub parse_time_ptr : Formats → Option String → Result (Option Time)
parse_time_ptr c none = ok none
parse_time_ptr c (some s) = elim (c.parse_time s) [ ok t ↦ ok (some t) | err e ↦ err e ]

abbrev pub bool_to_int : Bool → ℤ
bool_to_int true = pos 1
bool_to_int false = pos 0

abbrev pub int_to_bool : ℤ → Bool
int_to_bool v = not (is_zero v)

-- A character in front of the first of some texts.
abbrev pub cons_first : Char → List String → List String
cons_first c [] = String.◌∷◌ c String.[] ∷ []
cons_first c (w ∷ ws) = String.◌∷◌ c w ∷ ws

-- `strings.Split` at a character.
unfoldable pub split : ℕ → String → List String
split n String.[] = "" ∷ []
split n (String.◌∷◌ c s) =
    let rest = split n s in if code c == n then "" ∷ rest else cons_first c rest

unfoldable pub join_strings : List String → String
join_strings values = join values "\n"

abbrev pub is_empty : String → Bool
is_empty String.[] = true
is_empty (String.◌∷◌ c s) = false

unfoldable pub split_strings : String → List String
split_strings s = if is_empty s then [] else split 10 s

abbrev pub texts_of : List ℤ → List String
texts_of [] = []
texts_of (v ∷ vs) = itoa_ℤ v ∷ texts_of vs

unfoldable pub join_ints : List ℤ → String
join_ints values = join (texts_of values) ","

-- A parsed part before what the parts after it come to.
abbrev pub push_int : ℤ → Result (List ℤ) → Result (List ℤ)
push_int v (ok vs) = ok (v ∷ vs)
push_int v (err e) = err e

abbrev pub parsed_part : Error → Option ℤ → Result (List ℤ) → Result (List ℤ)
parsed_part e none rest = err e
parsed_part e (some v) rest = push_int v rest

-- The loop of `splitInts`: it stops at the first part that is no number.
unfoldable pub parse_ints : Formats → List String → Result (List ℤ)
parse_ints c [] = ok []
parse_ints c (p ∷ ps) = parsed_part (c.atoi_error p) (parse_int p) (parse_ints c ps)

unfoldable pub split_ints : Formats → String → Result (List ℤ)
split_ints c s = if is_empty s then ok [] else parse_ints c (split 44 s)
