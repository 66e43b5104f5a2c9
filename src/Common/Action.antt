-- ===== src/Common/Action.antt =====
-- Stateful code: an action takes the state and returns its value with the new state. `Leads R m`
-- says that `m` relates each state to the one it leaves, by a relation that composes.
use mathlib.Core.Path.{◌≡◌}
use mathlib.Core.Bool.{Bool, true, false}
use mathlib.Core.Option.{Option, none, some}
use mathlib.Core.List.{List, [], ◌∷◌}

abbrev pub Action {ℓ} : Type 0 → Type ℓ → Type ℓ
Action S A = S → A × S

module _ {S A : Type 0} where
  unfoldable pub pure : A → Action S A
  pure a s = (a, s)

  unfoldable pub gets : (S → A) → Action S A
  gets f s = (f s, s)

  -- The conditional on actions.
  unfoldable pub branch : Bool → Action S A → Action S A → Action S A
  branch true m n s = m s
  branch false m n s = n s

module _ {S : Type 0} where
  unfoldable pub modify : (S → S) → Action S (Unit {0})
  modify f s = (tt, f s)

  unfoldable pub when : Bool → Action S (Unit {0}) → Action S (Unit {0})
  when true m s = m s
  when false m s = (tt, s)

module _ {S A B : Type 0} where
  infixl 5 ◌>>=◌ ◌>>◌
  unfoldable pub ◌>>=◌ : Action S A → (A → Action S B) → Action S B
  unfolding pure
  ◌>>=◌ m f s = let (a, s') = m s in f a s'

  unfoldable pub ◌>>◌ : Action S A → Action S B → Action S B
  ◌>>◌ m n s = let (a, s') = m s in n s'

  -- The value of an option, with what to do when there is none.
  unfoldable pub option : Option A → Action S B → (A → Action S B) → Action S B
  option none m f s = m s
  option (some a) m f s = f a s

module _ {S A : Type 0} where
  -- A `for` loop over a list.
  unfoldable pub for_each : (A → Action S (Unit {0})) → List A → Action S (Unit {0})
  for_each f [] s = (tt, s)
  for_each f (x ∷ xs) s = for_each f xs (f x s).1

pub record IsPreorder {S : Type 0} (R : S → S → Type 0) : Type 0 where
  pub same : (s : S) → R s s
  pub chain : (s t u : S) → R s t → R t u → R s u

pub record Leads {S A : Type 0} (R : S → S → Type 0) (m : Action S A) : Type 0 where
  pub at : (s : S) → R s (m s).1

module _ {S A : Type 0} {R : S → S → Type 0} where
  pub Leads-pure : IsPreorder R → (a : A) → Leads R (pure a)
  unfolding pure
  Leads-pure p a = record { at = λ s. p.same s }

  pub Leads-gets : IsPreorder R → (f : S → A) → Leads R (gets f)
  unfolding gets
  Leads-gets p f = record { at = λ s. p.same s }

  pub Leads-branch : (b : Bool) (m n : Action S A) → Leads R m → Leads R n → Leads R (branch b m n)
  unfolding branch
  Leads-branch true m n hm hn = record { at = hm.at }
  Leads-branch false m n hm hn = record { at = hn.at }

  pub Leads-branch-false :
      (b : Bool) (m n : Action S A) → b ≡ false → Leads R n → Leads R (branch b m n)
  unfolding branch
  Leads-branch-false b m n h k = rw h (record { at = k.at })

module _ {S : Type 0} {R : S → S → Type 0} where
  pub Leads-when :
      IsPreorder R → (b : Bool) (m : Action S (Unit {0})) → Leads R m → Leads R (when b m)
  unfolding when
  Leads-when p true m h = record { at = h.at }
  Leads-when p false m h = record { at = λ s. p.same s }

  pub Leads-modify : (f : S → S) → ((s : S) → R s (f s)) → Leads R (modify f)
  unfolding modify
  Leads-modify f h = record { at = h }

module _ {S A B : Type 0} {R : S → S → Type 0} where
  pub Leads-bind :
      IsPreorder R
      → (m : Action S A) (f : A → Action S B) → Leads R m
      → ((a : A) → Leads R (f a))
      → Leads R (m >>= f)
  unfolding ◌>>=◌
  Leads-bind p m f hm hf = record {
    at = λ s. let (a, s') = m s in p.chain s s' (f a s').1 (hm.at s) ((hf a).at s');
  }

  pub Leads-then :
      IsPreorder R → (m : Action S A) (n : Action S B) → Leads R m → Leads R n → Leads R (m >> n)
  unfolding ◌>>◌
  Leads-then p m n hm hn = record {
    at = λ s. let (a, s') = m s in p.chain s s' (n s').1 (hm.at s) (hn.at s');
  }

  pub Leads-option :
      (o : Option A) (m : Action S B) (f : A → Action S B)
      → Leads R m
      → ((a : A) → Leads R (f a))
      → Leads R (option o m f)
  unfolding option
  Leads-option none m f hm hf = record { at = hm.at }
  Leads-option (some a) m f hm hf = record { at = (hf a).at }

module _ {S A : Type 0} {R : S → S → Type 0} where
  pub Leads-for_each :
      IsPreorder R
      → (f : A → Action S (Unit {0})) (xs : List A) → ((x : A) → Leads R (f x))
      → Leads R (for_each f xs)
  unfolding for_each
  Leads-for_each p f [] h = record { at = λ s. p.same s }
  Leads-for_each p f (x ∷ xs) h = record {
    at = λ s.
        p.chain s (f x s).1 (for_each f xs (f x s).1).1 ((h x).at s)
          ((Leads-for_each p f xs h).at (f x s).1);
  }

pub ruleset leads_rules = (
  Leads-pure, Leads-gets, Leads-branch, Leads-when, Leads-bind, Leads-then, Leads-option,
  Leads-for_each,
)

-- A relation between the states before and after something that happens at most once, beside a
-- relation `R` for what happens around it.
pub record IsOnce {S : Type 0} (R W : S → S → Type 0) : Type 0 where
  pub around : IsPreorder R
  pub never : (s t : S) → R s t → W s t
  pub before : (s t u : S) → R s t → W t u → W s u
  pub after : (s t u : S) → W s t → R t u → W s u

module _ {S A : Type 0} {R W : S → S → Type 0} where
  pub Once-never : IsOnce R W → (m : Action S A) → Leads R m → Leads W m
  Once-never o m h = record { at = λ s. o.never s (m s).1 (h.at s) }

module _ {S : Type 0} {R W : S → S → Type 0} where
  pub Once-when : IsOnce R W → (b : Bool) (m : Action S (Unit {0})) → Leads W m → Leads W (when b m)
  unfolding when
  Once-when o true m h = record { at = h.at }
  Once-when o false m h = record { at = λ s. o.never s s (o.around.same s) }

module _ {S A B : Type 0} {R W : S → S → Type 0} where
  pub Once-later :
      IsOnce R W
      → (m : Action S A) (f : A → Action S B) → Leads R m
      → ((a : A) → Leads W (f a))
      → Leads W (m >>= f)
  unfolding ◌>>=◌
  Once-later o m f hm hf = record {
    at = λ s. let (a, s') = m s in o.before s s' (f a s').1 (hm.at s) ((hf a).at s');
  }

  pub Once-earlier :
      IsOnce R W
      → (m : Action S A) (f : A → Action S B) → Leads W m
      → ((a : A) → Leads R (f a))
      → Leads W (m >>= f)
  unfolding ◌>>=◌
  Once-earlier o m f hm hf = record {
    at = λ s. let (a, s') = m s in o.after s s' (f a s').1 (hm.at s) ((hf a).at s');
  }

  pub Once-then_later :
      IsOnce R W → (m : Action S A) (n : Action S B) → Leads R m → Leads W n → Leads W (m >> n)
  unfolding ◌>>◌
  Once-then_later o m n hm hn = record {
    at = λ s. let (a, s') = m s in o.before s s' (n s').1 (hm.at s) (hn.at s');
  }

  pub Once-then_earlier :
      IsOnce R W → (m : Action S A) (n : Action S B) → Leads W m → Leads R n → Leads W (m >> n)
  unfolding ◌>>◌
  Once-then_earlier o m n hm hn = record {
    at = λ s. let (a, s') = m s in o.after s s' (n s').1 (hm.at s) (hn.at s');
  }
