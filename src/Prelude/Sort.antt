-- ===== src/Prelude/Sort.antt =====
-- `list.sort(key=...)`: a stable sort by a Boolean order on the entries, and what it does not depend on.
use Prim.Native.Nat.{suc}
use mathlib.Core.Path.{◌≡◌, refl, ap, ◌∙◌}
use mathlib.Core.Logic.{◌⊎◌, inl, inr}
use mathlib.Core.Bool.{Bool, true, false}
use mathlib.Core.List.{List, [], ◌∷◌, Perm}
use mathlib.Core.List.Perm
use native.Mathlib.Omega.{arith}
use llm_token_balancing_gate.Prelude.Tests.{if◌then◌else◌, Bool-cases}
use llm_token_balancing_gate.Prelude.Lists.{length, All, All-mono, Elem, keep}

-- A total preorder, as a test on the keys of two entries gives it.
pub record IsOrder {ℓ} {A : Type ℓ} (leb : A → A → Bool) : Type ℓ where
  pub total : (x y : A) → leb x y ≡ false → leb y x ≡ true
  pub trans : (x y z : A) → leb x y ≡ true → leb y z ≡ true → leb x z ≡ true

module _ {ℓ} {A : Type ℓ} (leb : A → A → Bool) where
  -- Before the first entry that is not below it, so that equal entries keep their order.
  unfoldable pub insert_sorted : A → List A → List A
  insert_sorted x [] = x ∷ []
  insert_sorted x (y ∷ ys) =
      let rest = insert_sorted x ys in if leb x y then x ∷ y ∷ ys else y ∷ rest

  unfoldable pub sort : List A → List A
  unfolding insert_sorted
  sort [] = []
  sort (x ∷ xs) = insert_sorted x (sort xs)

  -- Each entry is at most every later one.
  abbrev pub IsSorted : List A → Type 0
  IsSorted [] = Unit
  IsSorted (x ∷ xs) = All (λ y. leb x y ≡ true) xs × IsSorted xs

  -- One of the two is strictly before the other.
  abbrev pub Apart : A → A → Type 0
  Apart x y = (leb x y ≡ false) ⊎ (leb y x ≡ false)

  -- A rearrangement in which entries with the same key keep their order.
  pub data Rearranged : List A → List A → Type ℓ where
    same : (xs : List A) → Rearranged xs xs
    keep_head : (x : A) {xs ys : List A} → Rearranged xs ys → Rearranged (x ∷ xs) (x ∷ ys)
    swap : (x y : A) (xs : List A) → Apart x y → Rearranged (x ∷ y ∷ xs) (y ∷ x ∷ xs)
    after : {xs ys zs : List A} → Rearranged xs ys → Rearranged ys zs → Rearranged xs zs

  insert_sorted-perm : (x : A) (xs : List A) → Perm (insert_sorted x xs) (x ∷ xs)
  unfolding insert_sorted
  insert_sorted-perm x [] = Perm.rfl
  insert_sorted-perm x (y ∷ ys) = elim (Bool-cases (leb x y)) [
    | inl e ↦ rw e Perm.rfl
    | inr e ↦ rw e (Perm.trans (Perm.cons y (insert_sorted-perm x ys)) (Perm.swap x y ys))
  ]

  pub length-insert_sorted : (x : A) (xs : List A) → length (insert_sorted x xs) ≡ suc (length xs)
  unfolding insert_sorted
  length-insert_sorted x [] = refl
  length-insert_sorted x (y ∷ ys) = ground (arith, length-insert_sorted x ys)

  pub sort-perm : (xs : List A) → Perm (sort xs) xs
  unfolding sort
  sort-perm [] = Perm.rfl
  sort-perm (x ∷ xs) = Perm.trans (insert_sorted-perm x (sort xs)) (Perm.cons x (sort-perm xs))

  pub All-insert_sorted {κ} :
      (P : A → Type κ) (x : A) (xs : List A) → P x → All P xs → All P (insert_sorted x xs)
  unfolding insert_sorted
  All-insert_sorted P x [] p h = (p, h)
  All-insert_sorted P x (y ∷ ys) p h = elim (Bool-cases (leb x y)) [
    | inl e ↦ rw e (p, h)
    | inr e ↦ rw e (h.0, All-insert_sorted P x ys p h.1)
  ]

  pub All-sort {κ} : (P : A → Type κ) (xs : List A) → All P xs → All P (sort xs)
  unfolding sort
  All-sort P [] h = h
  All-sort P (x ∷ xs) h = All-insert_sorted P x (sort xs) h.0 (All-sort P xs h.1)

  module _ (o : IsOrder leb) where
    insert_sorted-IsSorted : (x : A) (xs : List A) → IsSorted xs → IsSorted (insert_sorted x xs)
    unfolding insert_sorted
    insert_sorted-IsSorted x [] s = (tt, tt)
    insert_sorted-IsSorted x (y ∷ ys) s = elim (Bool-cases (leb x y)) [
      | inl e ↦ rw e ((e, All-mono _ _ ys (λ z h. o.trans x y z e h) s.0), s)
      | inr e ↦ rw e (
        All-insert_sorted (λ z. leb y z ≡ true) x ys (o.total x y e) s.0,
        insert_sorted-IsSorted x ys s.1,
      )
    ]

    pub sort-IsSorted : (xs : List A) → IsSorted (sort xs)
    unfolding sort
    sort-IsSorted [] = tt
    sort-IsSorted (x ∷ xs) = insert_sorted-IsSorted x (sort xs) (sort-IsSorted xs)

    insert_sorted_comm :
        (x y : A) (xs : List A)
        → Apart x y
        → insert_sorted x (insert_sorted y xs) ≡ insert_sorted y (insert_sorted x xs)
    unfolding insert_sorted
    insert_sorted_comm x y [] a = ground (arith, o.total x y, o.total y x)
    insert_sorted_comm x y (z ∷ zs) a =
        ground (
          arith,
          o.total x y,
          o.total y x,
          o.trans x y z,
          o.trans y x z,
          insert_sorted_comm x y zs a,
        )

    pub sort-Rearranged : {xs ys : List A} → Rearranged xs ys → sort xs ≡ sort ys
    unfolding sort
    sort-Rearranged (same xs) = refl
    sort-Rearranged (keep_head x r) = ap (insert_sorted x) (sort-Rearranged r)
    sort-Rearranged (swap x y xs a) = insert_sorted_comm x y (sort xs) a
    sort-Rearranged (after r s) = sort-Rearranged r ∙ sort-Rearranged s

module _ {A : Type 0} (leb : A → A → Bool) where
  behind :
      (a x y : A) (ys rest : List A)
      → (Elem a (x ∷ ys) → Elem a rest)
      → Elem a (x ∷ y ∷ ys)
      → Elem a (y ∷ rest)
  behind a x y ys rest ih (inl q) = inr (ih (inl q))
  behind a x y ys rest ih (inr (inl q)) = inl q
  behind a x y ys rest ih (inr (inr q)) = inr (ih (inr q))

  Elem-insert_sorted : (a x : A) (xs : List A) → Elem a (x ∷ xs) → Elem a (insert_sorted leb x xs)
  unfolding insert_sorted
  Elem-insert_sorted a x [] h = h
  Elem-insert_sorted a x (y ∷ ys) h = elim (Bool-cases (leb x y)) [
    | inl e ↦ rw e h
    | inr e ↦ rw e (behind a x y ys (insert_sorted leb x ys) (Elem-insert_sorted a x ys) h)
  ]

  pub Elem-sort : (a : A) (xs : List A) → Elem a xs → Elem a (sort leb xs)
  unfolding sort
  Elem-sort a [] h = h
  Elem-sort a (x ∷ xs) (inl e) = Elem-insert_sorted a x (sort leb xs) (inl e)
  Elem-sort a (x ∷ xs) (inr h) = Elem-insert_sorted a x (sort leb xs) (inr (Elem-sort a xs h))

  pub Rearranged-keep :
      (p : A → Bool) {xs ys : List A}
      → Rearranged leb xs ys
      → Rearranged leb (keep p xs) (keep p ys)
  Rearranged-keep p (same xs) = same (keep p xs)
  Rearranged-keep p (keep_head x r) = elim (Bool-cases (p x)) [
    | inl e ↦ rw e (keep_head x (Rearranged-keep p r))
    | inr e ↦ rw e (Rearranged-keep p r)
  ]
  Rearranged-keep p (swap x y xs a) = elim (Bool-cases (p x)) [
    | inl e ↦ elim (Bool-cases (p y)) [
      | inl f ↦ rw (e, f) (swap x y (keep p xs) a)
      | inr f ↦ rw (e, f) (same (x ∷ keep p xs))
    ]
    | inr e ↦ elim (Bool-cases (p y)) [
      | inl f ↦ rw (e, f) (same (y ∷ keep p xs))
      | inr f ↦ rw (e, f) (same (keep p xs))
    ]
  ]
  Rearranged-keep p (after r s) = after (Rearranged-keep p r) (Rearranged-keep p s)

pub length-sort {ℓ} :
    {A : Type ℓ} (leb : A → A → Bool) (xs : List A) → length (sort leb xs) ≡ length xs
unfolding sort
length-sort leb [] = refl
length-sort leb (x ∷ xs) = length-insert_sorted leb x (sort leb xs) ∙ ap suc (length-sort leb xs)
