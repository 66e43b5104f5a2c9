-- ===== src/Domain/FileName.antt =====
-- The names that server/internal/domain/archive_name.go makes of the jobs' names.
use Prim.Native.Char.{Char, code}
use sshbackup.Common.{
  ℕ, suc, String, codes, length, All, ltb, false, arith, ◌≤◌, ◌≡◌, ◌≢◌, refl, ap, Bool-cases, inl,
  inr,
}
use sshbackup.Domain.ArchiveName.{is_windows_invalid, sanitize_char, sanitize}

-- A code that a character of a Windows file name may have: not a control character, and none of
-- the quotation mark, the asterisk, the slash, the colon, the less-than sign, the greater-than
-- sign, the question mark, the backslash and the bar.
pub record IsAllowed (c : ℕ) : Type 0 where
  pub printed : 32 ≤ c
  pub no_quote : c ≢ 34
  pub no_asterisk : c ≢ 42
  pub no_slash : c ≢ 47
  pub no_colon : c ≢ 58
  pub no_less : c ≢ 60
  pub no_greater : c ≢ 62
  pub no_question : c ≢ 63
  pub no_backslash : c ≢ 92
  pub no_bar : c ≢ 124

accepted_char-IsAllowed : (c : ℕ) → ltb c 32 ≡ false → is_windows_invalid c ≡ false → IsAllowed c
accepted_char-IsAllowed c h k = record {
  printed = ground (arith, h);
  no_quote = λ e. ground (arith, e, k);
  no_asterisk = λ e. ground (arith, e, k);
  no_slash = λ e. ground (arith, e, k);
  no_colon = λ e. ground (arith, e, k);
  no_less = λ e. ground (arith, e, k);
  no_greater = λ e. ground (arith, e, k);
  no_question = λ e. ground (arith, e, k);
  no_backslash = λ e. ground (arith, e, k);
  no_bar = λ e. ground (arith, e, k);
}

underscore-IsAllowed : IsAllowed 95
underscore-IsAllowed = accepted_char-IsAllowed 95 refl refl

sanitize_char-IsAllowed : (c : Char) → IsAllowed (code (sanitize_char c))
sanitize_char-IsAllowed c = elim (Bool-cases (ltb (code c) 32)) [
  | inl h ↦ rw h underscore-IsAllowed
  | inr h ↦ elim (Bool-cases (is_windows_invalid (code c))) [
    | inl k ↦ rw (h, k) underscore-IsAllowed
    | inr k ↦ rw (h, k) (accepted_char-IsAllowed (code c) h k)
  ]
]

invalid_not : (c : ℕ) → IsAllowed c → (ltb c 32 ≡ false) × (is_windows_invalid c ≡ false)
invalid_not c a = (
  ground (arith, a.printed),
  ground (
    arith, a.no_quote, a.no_asterisk, a.no_slash, a.no_colon, a.no_less, a.no_greater,
    a.no_question, a.no_backslash, a.no_bar,
  ),
)

sanitize_char_same : (c : Char) → IsAllowed (code c) → sanitize_char c ≡ c
sanitize_char_same c a = let (h, k) = invalid_not (code c) a in rw (h, k) refl

-- The name made of a job's name has only characters that a Windows file name may have, one for each
-- character of the job's name, and a name that has no other is kept as it is.
pub sanitize-IsAllowed :
    (s : String)
    → All IsAllowed (codes (sanitize s))
      × (length (codes (sanitize s)) ≡ length (codes s))
      × (All IsAllowed (codes s) → sanitize s ≡ s)
unfolding sanitize
sanitize-IsAllowed String.[] = (tt, refl, λ h. refl)
sanitize-IsAllowed (String.◌∷◌ c s) =
    let rest = sanitize-IsAllowed s in
    (
      (sanitize_char-IsAllowed c, rest.0),
      ap suc rest.1,
      λ h. rw (sanitize_char_same c h.0, rest.2 h.1) refl,
    )
