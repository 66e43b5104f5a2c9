-- ===== src/Backup/ShellWord.antt =====
-- What a POSIX shell makes of a quoted argument of server/internal/backup/shellquote.go.
use Prim.Native.Char.{Char, code}
use sshbackup.Common.{
  String, ◌<>◌, ◌==◌, ==_iff, ◌≡◌, refl, ap, ◌∙◌, Option, none, some, if◌then◌else◌, Bool-cases,
  inl, inr,
}
use text.Mathlib.TextEquality.{Char-path}
use text.Mathlib.TextLemmas.{cons-append, nil-append, append_assoc}
use sshbackup.Backup.ShellQuote.{escape_quotes, shell_quote}

-- Where the shell stands in a word: outside quotes, inside single quotes, after a backslash.
pub data Mode : Type 0 where
  outside inside escaped : Mode

abbrev pub with_char : Char → Option String → Option String
with_char c none = none
with_char c (some s) = some (String.◌∷◌ c s)

-- The word that the shell reads, if the text is one word of quoted characters: 39 is the single
-- quote and 92 the backslash. An unquoted character that is neither is refused.
unfoldable pub read_word : Mode → String → Option String
read_word outside String.[] = some ""
read_word outside (String.◌∷◌ c s) =
    let in_quotes = read_word inside s in
    let after_backslash = read_word escaped s in
    if code c == 39 then in_quotes else if code c == 92 then after_backslash else none
read_word inside String.[] = none
read_word inside (String.◌∷◌ c s) =
    let out = read_word outside s in
    let more = read_word inside s in if code c == 39 then out else with_char c more
read_word escaped String.[] = none
read_word escaped (String.◌∷◌ c s) = with_char c (read_word outside s)

abbrev single_quote : Char
single_quote = "'"

abbrev backslash : Char
backslash = "\\"

prepend : (c : Char) (s t u : String) → s <> t ≡ u → String.◌∷◌ c s <> t ≡ String.◌∷◌ c u
prepend c s t u h = cons-append c s t ∙ ap (λ r. String.◌∷◌ c r) h

escaped_quote :
    (t : String)
    → "'\\''" <> t
      ≡ String.◌∷◌ single_quote
          (String.◌∷◌ backslash (String.◌∷◌ single_quote (String.◌∷◌ single_quote t)))
escaped_quote t = prepend single_quote "\\''" t _ (
    prepend backslash "''" t _
      (prepend single_quote "'" t _ (prepend single_quote "" t _ (nil-append t))))

read_escaped : (s : String) → read_word inside (escape_quotes s <> "'") ≡ some s
unfolding read_word escape_quotes
read_escaped String.[] = refl
read_escaped (String.◌∷◌ c s) = elim (Bool-cases (code c == 39)) [
  | inl h ↦
      let quote : c ≡ single_quote = Char-path c single_quote ((==_iff (code c) 39).0 h) in
      rw (quote, append_assoc "'\\''" (escape_quotes s) "'", escaped_quote (escape_quotes s <> "'"))
        (ap (with_char single_quote) (read_escaped s))
  | inr h ↦
      rw
        (
          h,
          append_assoc (String.◌∷◌ c "") (escape_quotes s) "'",
          prepend c "" (escape_quotes s <> "'") _ (nil-append (escape_quotes s <> "'")),
          h,
        )
        (ap (with_char c) (read_escaped s))
]

-- Read by the shell's rules for quotes and backslashes, the quoted form of any text is one word,
-- which is that text.
pub read_word-shell_quote : (s : String) → read_word outside (shell_quote s) ≡ some s
unfolding read_word shell_quote escape_quotes
read_word-shell_quote s =
    let text = escape_quotes s <> "'" in
    rw (prepend single_quote "" text _ (nil-append text)) (read_escaped s)
