-- ===== src/Store/Lists.antt =====
-- The lists of server/internal/store/convert.go, written and read back.
use Prim.Native.Char.{Char, code}
use text.Mathlib.TextLemmas.{cons-append, nil-append}
use sshbackup.Common.{
  ℕ, zero, suc, ◌≡◌, refl, ap, ◌∙◌, String, ◌<>◌, Bool, true, false, not, ◌&&◌, List, [], ◌∷◌, all,
  All, arith, ◌==◌, ltb, ℤ, pos, negsuc, join, parse_int, some, itoa_ℤ, Bool-cases, inl, inr,
}
use sshbackup.Domain.{ok}
use sshbackup.Store.Convert.{
  Formats, is_empty, split, join_strings, split_strings, join_ints, parse_ints, split_ints,
  texts_of,
}

-- Whether a text does not have a character.
abbrev pub lacks : ℕ → String → Bool
lacks n String.[] = true
lacks n (String.◌∷◌ c s) = not (code c == n) && lacks n s

head_lacks :
    (n : ℕ) (c : Char) (s : String)
    → lacks n (String.◌∷◌ c s) ≡ true
    → ((code c == n) ≡ false) × (lacks n s ≡ true)
head_lacks n c s h = elim (Bool-cases (code c == n)) [
  | inl k ↦ absurd (ground (arith, h, k))
  | inr k ↦ (k, ground (arith, h, k))
]

split-lacks : (n : ℕ) (s : String) → lacks n s ≡ true → split n s ≡ s ∷ []
unfolding split
split-lacks n String.[] h = refl
split-lacks n (String.◌∷◌ c s) h =
    let (here, later) = head_lacks n c s h in simp (here, split-lacks n s later) refl

split-append :
    (n : ℕ) (s : String) (c : Char) (t : String)
    → lacks n s ≡ true
    → (code c == n) ≡ true
    → split n (s <> String.◌∷◌ c t) ≡ s ∷ split n t
unfolding split
split-append n String.[] c t h k = rw (nil-append (String.◌∷◌ c t)) (simp k refl)
split-append n (String.◌∷◌ d s) c t h k =
    let (here, later) = head_lacks n d s h in
    rw (cons-append d s (String.◌∷◌ c t)) (simp (here, split-append n s c t later k) refl)

one_char : (c : Char) (t : String) → String.◌∷◌ c String.[] <> t ≡ String.◌∷◌ c t
one_char c t = cons-append c String.[] t ∙ ap (λ s. String.◌∷◌ c s) (nil-append t)

-- Some texts, not none, joined by one character that none of them has.
split-join :
    (c : Char) (x : String) (xs : List String)
    → All (λ s. lacks (code c) s ≡ true) (x ∷ xs)
    → split (code c) (join (x ∷ xs) (String.◌∷◌ c String.[])) ≡ x ∷ xs
unfolding join
split-join c x [] h = split-lacks (code c) x h.0
split-join c x (y ∷ ys) h =
    let sep = one_char c (join (y ∷ ys) (String.◌∷◌ c String.[])) in
    let same : (code c == code c) ≡ true = ground arith in
    rw sep (split-append (code c) x c _ h.0 same ∙ ap (λ zs. x ∷ zs) (split-join c y ys h.1))

-- The lists of texts that the column can hold: no text has a line break, and the list is not
-- that of one empty text.
abbrev pub storable : List String → Bool
storable [] = true
storable (x ∷ []) = not (is_empty x) && lacks 10 x
storable (x ∷ y ∷ xs) = all (lacks 10) (x ∷ y ∷ xs)

is_empty-append : (s : String) (c : Char) (t : String) → is_empty (s <> String.◌∷◌ c t) ≡ false
is_empty-append String.[] c t = rw (nil-append (String.◌∷◌ c t)) refl
is_empty-append (String.◌∷◌ d s) c t = rw (cons-append d s (String.◌∷◌ c t)) refl

all→All : {A : Type 0} (p : A → Bool) (xs : List A) → all p xs ≡ true → All (λ x. p x ≡ true) xs
all→All p [] h = tt
all→All p (x ∷ xs) h = elim (Bool-cases (p x)) [
  | inl k ↦ (k, all→All p xs (ground (arith, h, k)))
  | inr k ↦ absurd (ground (arith, h, k))
]

-- A list of texts that the column can hold is read back as it was written.
pub split_strings-join_strings :
    (xs : List String) → storable xs ≡ true → split_strings (join_strings xs) ≡ xs
unfolding split_strings join_strings join
split_strings-join_strings [] h = refl
split_strings-join_strings (x ∷ []) h =
    let filled : is_empty x ≡ false = ground (arith, h) in
    simp filled (split-lacks 10 x (ground (arith, h, filled)))
split_strings-join_strings (x ∷ y ∷ ys) h =
    let rest = join (y ∷ ys) "\n" in
    let filled : is_empty (x <> "\n" <> rest) ≡ false =
      rw (one_char "\n" rest) (is_empty-append x "\n" rest) in
    rw filled (split-join "\n" x (y ∷ ys) (all→All (lacks 10) (x ∷ y ∷ ys) h))

-- `time.Weekday`, from Sunday to Saturday.
abbrev pub is_weekday : ℤ → Bool
is_weekday (pos n) = ltb n 7
is_weekday (negsuc n) = false

weekday_text :
    (w : ℕ)
    → ltb w 7 ≡ true
    → (lacks 44 (itoa_ℤ (pos w)) ≡ true)
      × (parse_int (itoa_ℤ (pos w)) ≡ some (pos w))
      × (is_empty (itoa_ℤ (pos w)) ≡ false)
unfolding itoa_ℤ parse_int
weekday_text zero h = (refl, refl, refl)
weekday_text (suc zero) h = (refl, refl, refl)
weekday_text (suc (suc zero)) h = (refl, refl, refl)
weekday_text (suc (suc (suc zero))) h = (refl, refl, refl)
weekday_text (suc (suc (suc (suc zero)))) h = (refl, refl, refl)
weekday_text (suc (suc (suc (suc (suc zero))))) h = (refl, refl, refl)
weekday_text (suc (suc (suc (suc (suc (suc zero)))))) h = (refl, refl, refl)
weekday_text (suc (suc (suc (suc (suc (suc (suc n))))))) h = absurd (ground (arith, h))

int_text :
    (v : ℤ)
    → is_weekday v ≡ true
    → (lacks 44 (itoa_ℤ v) ≡ true) × (parse_int (itoa_ℤ v) ≡ some v) × (is_empty (itoa_ℤ v) ≡ false)
int_text (pos n) h = weekday_text n h
int_text (negsuc n) h = absurd (ground (arith, h))

weekday_texts :
    (ws : List ℤ) → All (λ w. is_weekday w ≡ true) ws → All (λ s. lacks 44 s ≡ true) (texts_of ws)
weekday_texts [] h = tt
weekday_texts (w ∷ ws) h = ((int_text w h.0).0, weekday_texts ws h.1)

parse_ints-cons :
    (c : Formats) (p : String) (ps : List String) (v : ℤ) (vs : List ℤ)
    → parse_int p ≡ some v
    → parse_ints c ps ≡ ok vs
    → parse_ints c (p ∷ ps) ≡ ok (v ∷ vs)
unfolding parse_ints
parse_ints-cons c p ps v vs h k = rw h (rw k refl)

parse_ints-texts_of :
    (c : Formats) (ws : List ℤ)
    → All (λ w. is_weekday w ≡ true) ws
    → parse_ints c (texts_of ws) ≡ ok ws
unfolding parse_ints
parse_ints-texts_of c [] h = refl
parse_ints-texts_of c (w ∷ ws) h =
    parse_ints-cons c _ _ w ws (int_text w h.0).1 (parse_ints-texts_of c ws h.1)

filled_ints :
    (w : ℤ) (ws : List ℤ)
    → All (λ v. is_weekday v ≡ true) (w ∷ ws)
    → is_empty (join (texts_of (w ∷ ws)) ",") ≡ false
unfolding join
filled_ints w [] h = (int_text w h.0).2
filled_ints w (v ∷ vs) h =
    let rest = join (texts_of (v ∷ vs)) "," in
    rw (one_char "," rest) (is_empty-append (itoa_ℤ w) "," rest)

-- The days of the week of a schedule are read back as they were written.
pub split_ints-join_ints :
    (c : Formats) (ws : List ℤ)
    → All (λ w. is_weekday w ≡ true) ws
    → split_ints c (join_ints ws) ≡ ok ws
unfolding split_ints join_ints join
split_ints-join_ints c [] h = refl
split_ints-join_ints c (w ∷ ws) h =
    let comma : Char = "," in
    let parts = split-join comma (itoa_ℤ w) (texts_of ws) (weekday_texts (w ∷ ws) h) in
    simp (filled_ints w ws h) (ap (parse_ints c) parts ∙ parse_ints-texts_of c (w ∷ ws) h)
