-- ===== src/Remote/CappedWriter.antt =====
-- server/internal/remote/output.go, over bytes.
use sshbackup.Common.{
  ℕ, zero, suc, ◌-◌, ◌≤◌, ◌<◌, ◌≡◌, refl, ap, sym, ◌∙◌, Bool, true, false, List, [], ◌∷◌, ◌++◌,
  take, length, length-append, length-take, ltb, leb, leb→le, leb-false, if◌then◌else◌, arith,
  Bool-cases, inl, inr, All,
}
use mathlib.Core.List.{append_assoc, append-nil}

pub record CappedWriter : Type 0 where
  pub limit : ℕ
  pub buf : List ℕ
  pub truncated : Bool

-- `newCappedWriter`.
abbrev pub new_capped_writer : ℕ → CappedWriter
new_capped_writer limit = record { limit = limit; buf = []; truncated = false }

-- `Write`: the number of bytes that it reports, and the writer.
unfoldable pub write : List ℕ → CappedWriter → ℕ × CappedWriter
write p w =
    let remaining = w.limit - length w.buf in
    if leb w.limit (length w.buf)
    then (length p, record w { truncated = true })
    else if ltb remaining (length p)
    then (length p, record w { buf = w.buf ++ take remaining p; truncated = true })
    else (length p, record w { buf = w.buf ++ p })

-- A command's output, chunk by chunk.
unfoldable pub write_all : List (List ℕ) → CappedWriter → CappedWriter
write_all [] w = w
write_all (p ∷ ps) w = write_all ps (write p w).1

abbrev pub flatten : List (List ℕ) → List ℕ
flatten [] = []
flatten (p ∷ ps) = p ++ flatten ps

minus_zero : (n : ℕ) → n - 0 ≡ n
minus_zero n = omega arith

minus_suc : (n k : ℕ) → suc n - suc k ≡ n - k
minus_suc n k = omega arith

zero_minus : (n : ℕ) → 0 - n ≡ 0
zero_minus n = omega arith

take_none : (n : ℕ) → take {A = ℕ} n [] ≡ []
take_none zero = refl
take_none (suc n) = refl

take-append : (n : ℕ) (xs ys : List ℕ) → take n (xs ++ ys) ≡ take n xs ++ take (n - length xs) ys
take-append n [] ys = rw (minus_zero n, take_none n) refl
take-append zero (x ∷ xs) ys = rw (zero_minus (length (x ∷ xs))) refl
take-append (suc n) (x ∷ xs) ys =
    rw (minus_suc n (length xs)) (ap (λ (l : List ℕ). x ∷ l) (take-append n xs ys))

take_all : (n : ℕ) (xs : List ℕ) → length xs ≤ n → take n xs ≡ xs
take_all zero [] h = refl
take_all zero (x ∷ xs) h = absurd (ground arith)
take_all (suc n) [] h = refl
take_all (suc n) (x ∷ xs) h = ap (λ (l : List ℕ). x ∷ l) (take_all n xs (omega arith))

-- What the writer holds after some bytes.
pub record Holds (sofar : List ℕ) (w : CappedWriter) : Type 0 where
  pub kept : w.buf ≡ take w.limit sofar
  pub flagged : w.truncated ≡ ltb w.limit (length sofar)

full : (n : ℕ) (xs ys : List ℕ) → n ≤ length (take n xs) → take n xs ≡ take n (xs ++ ys)
full n xs ys h =
    let e : n - length xs ≡ 0 = omega (arith, h, length-take n xs) in
    sym (rw (take-append n xs ys, e, append-nil) refl)

within : (n : ℕ) (xs : List ℕ) → length (take n xs) < n → (take n xs ≡ xs) × (length xs < n)
within n xs h =
    let k : length xs < n = omega (arith, h, length-take n xs) in
    (take_all n xs (omega (arith, k)), k)

-- `Write` keeps the writer in step with the bytes it has seen.
write-Holds :
    (sofar p : List ℕ) (w : CappedWriter)
    → 0 < length p
    → Holds sofar w
    → Holds (sofar ++ p) (write p w).1 × ((write p w).1.limit ≡ w.limit)
unfolding write
write-Holds sofar p w pos h = elim (Bool-cases (leb w.limit (length w.buf))) [
  | inl a ↦
      let c : w.limit ≤ length (take w.limit sofar) = rw⁻¹ h.kept (leb→le _ _ a) in
      simp a (
        record {
          kept = h.kept ∙ full w.limit sofar p c;
          flagged = ground (arith, pos, length-append sofar p, length-take w.limit sofar, c);
        },
        refl,
      )
  | inr a ↦
      let b : length (take w.limit sofar) < w.limit = rw⁻¹ h.kept (leb-false _ _ a) in
      let (e, k) = within w.limit sofar b in
      let q : w.buf ≡ sofar = h.kept ∙ e in
      let l : length w.buf ≡ length sofar = ap length q in
      let sum = length-append sofar p in
      elim (Bool-cases (ltb (w.limit - length w.buf) (length p))) [
        | inl r ↦
            simp (a, r)
              (
                record {
                  kept = simp (q, take-append w.limit sofar p, e) refl;
                  flagged = ground (arith, k, l, r, sum);
                },
                refl,
              )
        | inr r ↦
            simp (a, r)
              (
                record {
                  kept =
                      simp q (sym (take_all w.limit (sofar ++ p) (ground (arith, k, l, r, sum))));
                  flagged = h.flagged ∙ ground (arith, k, l, r, sum);
                },
                refl,
              )
      ]
]

write_all-Holds :
    (sofar : List ℕ) (ps : List (List ℕ)) (w : CappedWriter)
    → All (λ p. 0 < length p) ps
    → Holds sofar w
    → Holds (sofar ++ flatten ps) (write_all ps w) × ((write_all ps w).limit ≡ w.limit)
unfolding write_all
write_all-Holds sofar [] w pos h = (rw (append-nil sofar) h, refl)
write_all-Holds sofar (p ∷ ps) w pos h =
    let (g, l) = write-Holds sofar p w pos.0 h in
    let (g', l') = write_all-Holds (sofar ++ p) ps (write p w).1 pos.1 g in
    (rw⁻¹ (append_assoc sofar p (flatten ps)) g', l' ∙ l)

-- After an output that arrives in non-empty chunks, whatever the chunks are, the writer holds the
-- output's first `limit` bytes, and it is marked truncated exactly if the output is longer.
pub write_all-new_capped_writer :
    (n : ℕ) (ps : List (List ℕ))
    → All (λ p. 0 < length p) ps
    → ((write_all ps (new_capped_writer n)).buf ≡ take n (flatten ps))
      × ((write_all ps (new_capped_writer n)).truncated ≡ ltb n (length (flatten ps)))
write_all-new_capped_writer n ps pos =
    let start : Holds [] (new_capped_writer n) = record {
      kept = sym (take_none n);
      flagged = ground arith;
    } in
    let (g, l) = write_all-Holds [] ps (new_capped_writer n) pos start in
    (g.kept ∙ ap (λ m. take m (flatten ps)) l, g.flagged ∙ ap (λ m. ltb m (length (flatten ps))) l)
