-- ===== src/Controls/Limits.antt =====
-- Strictest and lowest values over what the layers of src/gateway/services/controls.py set.
use llm_token_balancing_gate.Prelude.{
  ℕ, ◌≤◌, ◌≡◌, refl, sym, subst, Bool, true, false, Option, none, some, List, [], ◌∷◌, ◌++◌, map,
  ltb, if◌then◌else◌, ℤ, ltb_ℤ, ◌≤ℤ◌, All, arith, Bool-cases, inl, inr,
}
use llm_token_balancing_gate.Domain.Enums.{Privacy, privacy_index}
use llm_token_balancing_gate.Domain.Strictest.{
  strictest_from, strictest, or_default, present, resolve_strictest_privacy,
}
use llm_token_balancing_gate.Domain.Strictest.Laws.{strictest-bounds}
use llm_token_balancing_gate.Controls.{lowest_from, lowest_of, lowest, get_or, with_forced}

-- What a layer set is at most the resolved value, in the order of strictness.
abbrev pub AtLeast : {A : Type 0} → (A → ℕ) → Option A → A → Type 0
AtLeast index none m = Unit
AtLeast index (some x) m = index x ≤ index m

-- A resolved limit is there, and at most the limit that a layer set.
abbrev pub Limits : {A : Type 0} → (A → A → Type 0) → Option A → Option A → Type 0
Limits leq none m = Unit
Limits leq (some x) none = ⊥
Limits leq (some x) (some m) = leq m x

module _ {A : Type 0} (index : A → ℕ) where
  present-AtLeast :
      (xs : List (Option A)) (m : A)
      → All (λ x. index x ≤ index m) (present xs)
      → All (λ o. AtLeast index o m) xs
  present-AtLeast [] m h = tt
  present-AtLeast (none ∷ xs) m h = (tt, present-AtLeast xs m h)
  present-AtLeast (some x ∷ xs) m h = (h.0, present-AtLeast xs m h.1)

module _ {A : Type 0} (leq : A → A → Type 0) where
  present-Limits :
      (xs : List (Option A)) (m : A)
      → All (leq m) (present xs)
      → All (λ o. Limits leq o (some m)) xs
  present-Limits [] m h = tt
  present-Limits (none ∷ xs) m h = (tt, present-Limits xs m h)
  present-Limits (some x ∷ xs) m h = (h.0, present-Limits xs m h.1)

  absent-Limits :
      (xs : List (Option A)) (m : Option A) → present xs ≡ [] → All (λ o. Limits leq o m) xs
  absent-Limits [] m h = tt
  absent-Limits (none ∷ xs) m h = (tt, absent-Limits xs m h)
  absent-Limits (some x ∷ xs) m h = ground arith

module _ {A : Type 0} (less : A → A → Bool) (leq : A → A → Type 0) (self : (a : A) → leq a a)
    (trans : (a b c : A) → leq a b → leq b c → leq a c)
    (yes : (a b : A) → less a b ≡ true → leq a b)
    (no : (a b : A) → less a b ≡ false → leq b a) where
  -- One step keeps the smaller of the two.
  step_falls :
      (x best : A)
      → leq (if less x best then x else best) best × leq (if less x best then x else best) x
  step_falls x best = elim (Bool-cases (less x best)) [
    | inl e ↦ rw e (yes x best e, self x)
    | inr e ↦ rw e (self best, no x best e)
  ]

  lowest_from-falls : (best : A) (xs : List A) → leq (lowest_from less best xs) best
  unfolding lowest_from
  lowest_from-falls best [] = self best
  lowest_from-falls best (x ∷ xs) =
      trans _ _ _ (lowest_from-falls (if less x best then x else best) xs) (step_falls x best).0

  lowest_from-bounds : (best : A) (xs : List A) → All (leq (lowest_from less best xs)) xs
  unfolding lowest_from
  lowest_from-bounds best [] = tt
  lowest_from-bounds best (x ∷ xs) = (
    trans _ _ _ (lowest_from-falls (if less x best then x else best) xs) (step_falls x best).1,
    lowest_from-bounds (if less x best then x else best) xs,
  )

  lowest-Limits : (values : List (Option A)) → All (λ o. Limits leq o (lowest less values)) values
  unfolding lowest
  lowest-Limits values = of_present (present values) refl
    where
      of_present :
          (ps : List A) → present values ≡ ps → All (λ o. Limits leq o (lowest_of less ps)) values
      of_present [] e = absent-Limits leq values none e
      of_present (p ∷ ps) e = present-Limits leq values (lowest_from less p ps) (
          subst (All (leq (lowest_from less p ps))) (sym e)
            (lowest_from-falls p ps, lowest_from-bounds p ps))

-- Lists of what the layers set, with the system's own value at the end.
module _ {A B : Type 0} (P : B → Type 0) (f : A → B) where
  pub All-map : (xs : List A) → All P (map f xs) → All (λ x. P (f x)) xs
  All-map [] h = tt
  All-map (x ∷ xs) h = (h.0, All-map xs h.1)

  pub All-map-append :
      (xs : List A) (rest : List B) → All P (map f xs ++ rest) → All (λ x. P (f x)) xs
  All-map-append [] rest h = tt
  All-map-append (x ∷ xs) rest h = (h.0, All-map-append xs rest h.1)

pub cost-Limits : (values : List (Option ℤ)) → All (λ o. Limits ◌≤ℤ◌ o (lowest ltb_ℤ values)) values
cost-Limits =
    lowest-Limits ltb_ℤ ◌≤ℤ◌ (λ a. omega arith) (λ a b c h k. omega arith) (λ a b e. ground arith)
      (λ a b e. ground arith)

pub count-Limits : (values : List (Option ℕ)) → All (λ o. Limits ◌≤◌ o (lowest ltb values)) values
count-Limits =
    lowest-Limits ltb ◌≤◌ (λ a. omega arith) (λ a b c h k. omega arith) (λ a b e. ground arith)
      (λ a b e. ground arith)

module _ {A : Type 0} (index : A → ℕ) (values : List (Option A)) where
  absent-AtLeast :
      (xs : List (Option A)) (m : A) → present xs ≡ [] → All (λ o. AtLeast index o m) xs
  absent-AtLeast [] m h = tt
  absent-AtLeast (none ∷ xs) m h = (tt, absent-AtLeast xs m h)
  absent-AtLeast (some x ∷ xs) m h = ground arith

  pub strictest-AtLeast :
      (d : A) → All (λ o. AtLeast index o (or_default (strictest index (present values)) d)) values
  unfolding strictest
  strictest-AtLeast d = of_present (present values) refl
    where
      of_present :
          (ps : List A)
          → present values ≡ ps
          → All (λ o. AtLeast index o (or_default (strictest index ps) d)) values
      of_present [] e = absent-AtLeast values d e
      of_present (p ∷ ps) e = present-AtLeast index values (strictest_from index p ps) (
          subst (All (λ x. index x ≤ index (strictest_from index p ps))) (sym e)
            (strictest-bounds index (p ∷ ps) refl))

  pub strictest-Limits :
      All (λ o. Limits (λ m x. index x ≤ index m) o (strictest index (present values))) values
  unfolding strictest
  strictest-Limits = of_present (present values) refl
    where
      of_present :
          (ps : List A)
          → present values ≡ ps
          → All (λ o. Limits (λ m x. index x ≤ index m) o (strictest index ps)) values
      of_present [] e = absent-Limits (λ m x. index x ≤ index m) values none e
      of_present (p ∷ ps) e =
          present-Limits (λ m x. index x ≤ index m) values (strictest_from index p ps)
            (subst (All (λ x. index x ≤ index (strictest_from index p ps))) (sym e)
              (strictest-bounds index (p ∷ ps) refl))

-- A default stands in only where no layer set a limit.
pub get_or-Limits :
    {A : Type 0} (leq : A → A → Type 0) (m : Option A) (d : A) (o : Option A)
    → Limits leq o m
    → Limits leq o (some (get_or m d))
get_or-Limits leq m d none h = tt
get_or-Limits leq none d (some x) h = elim h [ ]
get_or-Limits leq (some m) d (some x) h = h

pub with_forced-AtLeast :
    (forced : Option Privacy) (p : Privacy) (o : Option Privacy)
    → AtLeast privacy_index o p
    → AtLeast privacy_index o (with_forced forced p)
unfolding resolve_strictest_privacy
with_forced-AtLeast none p o h = h
with_forced-AtLeast (some f) p none h = tt
with_forced-AtLeast (some f) p (some x) h =
    let grown = (strictest-AtLeast privacy_index (some p ∷ some f ∷ []) Privacy.confidential).0 in
    omega arith
