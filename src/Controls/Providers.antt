-- ===== src/Controls/Providers.antt =====
-- The allow and deny lists that src/gateway/services/controls.py resolves.
use Prim.Native.Nat.{Ordering}
use Prim.Native.String.{compare}
use llm_token_balancing_gate.Prelude.{
  String, ◌≡◌, refl, sym, ap, ◌∙◌, subst, Bool, true, false, not, ◌&&◌, ◌||◌, Option, none, some,
  List, [], ◌∷◌, ◌++◌, if◌then◌else◌, keep, str_elem, str_eq, eq_iff, All, arith, Bool-cases, ◌⊎◌,
  inl, inr,
}
use llm_token_balancing_gate.Domain.Requests.{GatewayControls, provider_allowed, non_empty}
use llm_token_balancing_gate.Controls.{
  ControlLayer, Chain, ordered, get_or, insert_name, sorted_set, narrow, allow_from, deny_of,
  resolve_controls,
}

str_elem-insert_name :
    (j k : String) (xs : List String)
    → str_elem j (insert_name k xs) ≡ (str_eq k j || str_elem j xs)
unfolding insert_name
str_elem-insert_name j k [] = ground arith
str_elem-insert_name j k (x ∷ xs) = ordered_by (compare k x) refl (str_elem-insert_name j k xs)
  where
    ordered_by :
        (o : Ordering)
        → compare k x ≡ o
        → str_elem j (insert_name k xs) ≡ (str_eq k j || str_elem j xs)
        → str_elem j (elim o [
          | Ordering.lt ↦ k ∷ x ∷ xs
          | Ordering.eq ↦ x ∷ xs
          | Ordering.gt ↦ x ∷ insert_name k xs
        ])
          ≡ (str_eq k j || (str_eq x j || str_elem j xs))
    ordered_by Ordering.lt e ih = refl
    ordered_by Ordering.gt e ih = rw ih (ground arith)
    ordered_by Ordering.eq e ih =
        let same : k ≡ x = (eq_iff k x).0 (rw e refl) in rw same (ground arith)

str_elem-sorted_set : (j : String) (xs : List String) → str_elem j (sorted_set xs) ≡ str_elem j xs
unfolding sorted_set
str_elem-sorted_set j [] = refl
str_elem-sorted_set j (x ∷ xs) =
    str_elem-insert_name j x (sorted_set xs) ∙ ap (λ t. str_eq x j || t) (str_elem-sorted_set j xs)

str_elem-keep :
    (j : String) (p : String → Bool) (xs : List String)
    → str_elem j (keep p xs) ≡ (str_elem j xs && p j)
str_elem-keep j p [] = refl
str_elem-keep j p (x ∷ xs) = kept (p x) refl (str_elem-keep j p xs)
  where
    kept :
        (t : Bool)
        → p x ≡ t
        → str_elem j (keep p xs) ≡ (str_elem j xs && p j)
        → str_elem j (if t then x ∷ keep p xs else keep p xs)
          ≡ ((str_eq x j || str_elem j xs) && p j)
    kept true e ih = elim (Bool-cases (str_eq x j)) [
      | inl h ↦
          let same : p j ≡ true = subst (λ y. p y ≡ true) ((eq_iff x j).0 h) e in rw (h, same) refl
      | inr h ↦ rw h ih
    ]
    kept false e ih = elim (Bool-cases (str_eq x j)) [
      | inl h ↦
          let same : p j ≡ false = subst (λ y. p y ≡ false) ((eq_iff x j).0 h) e in
          rw (h, ih, same) (ground arith)
      | inr h ↦ rw h ih
    ]

str_elem-append :
    (j : String) (xs ys : List String) → str_elem j (xs ++ ys) ≡ (str_elem j xs || str_elem j ys)
str_elem-append j [] ys = refl
str_elem-append j (x ∷ xs) ys = ground (arith, str_elem-append j xs ys)

-- The provider stands in the allow list, if there is one.
abbrev pub IsListed : String → Option (List String) → Type 0
IsListed k none = Unit
IsListed k (some names) = str_elem k names ≡ true

narrow-IsListed :
    (k : String) (a b : Option (List String))
    → IsListed k (narrow a b)
    → IsListed k a × IsListed k b
narrow-IsListed k a none h = (h, tt)
narrow-IsListed k none (some names) h = (tt, h)
narrow-IsListed k (some allow) (some names) h =
    let e =
      sym (
        str_elem-sorted_set k (keep (λ j. str_elem j names) allow)
        ∙ str_elem-keep k (λ j. str_elem j names) allow)
      ∙ h in
    (ground arith, ground arith)

allow_from-IsListed :
    (k : String) (a : Option (List String)) (ls : List ControlLayer)
    → IsListed k (allow_from a ls)
    → IsListed k a × All (λ l. IsListed k l.provider_allow) ls
unfolding allow_from
allow_from-IsListed k a [] h = (h, tt)
allow_from-IsListed k a (l ∷ ls) h =
    let ih = allow_from-IsListed k (narrow a l.provider_allow) ls h in
    let one = narrow-IsListed k a l.provider_allow ih.0 in (one.0, (one.1, ih.1))

deny_of-none :
    (k : String) (ls : List ControlLayer)
    → str_elem k (deny_of ls) ≡ false
    → All (λ l. str_elem k (get_or l.provider_deny []) ≡ false) ls
unfolding deny_of
deny_of-none k [] h = tt
deny_of-none k (l ∷ ls) h =
    let e = sym (str_elem-append k (get_or l.provider_deny []) (deny_of ls)) ∙ h in
    (ground arith, deny_of-none k ls (ground arith))

-- What it means to the lists that a provider is allowed.
allowed_parts :
    (r : GatewayControls) (k : String)
    → provider_allowed r k ≡ true
    → (str_elem k r.provider_deny ≡ false)
      × ((non_empty r.provider_allow && not (str_elem k r.provider_allow)) ≡ false)
unfolding provider_allowed
allowed_parts r k h = (ground arith, ground arith)

met_list :
    (k : String) (allow : Option (List String))
    → (non_empty (get_or allow []) && not (str_elem k (get_or allow []))) ≡ false
    → (get_or allow [] ≡ []) ⊎ IsListed k allow
met_list k none n = inl refl
met_list k (some []) n = inl refl
met_list k (some (x ∷ xs)) n = inr (ground arith)

IsListed-by_layers :
    (k : String) (ls : List ControlLayer)
    → (get_or (allow_from none ls) [] ≡ []) ⊎ IsListed k (allow_from none ls)
    → (get_or (allow_from none ls) [] ≡ []) ⊎ All (λ l. IsListed k l.provider_allow) ls
IsListed-by_layers k ls (inl e) = inl e
IsListed-by_layers k ls (inr h) = inr (allow_from-IsListed k none ls h).1

-- A provider that the resolved controls allow is denied by no layer; and it stands in the allow list of
-- every layer that has one, unless the resolved allow list is empty.
pub allowed-by_layers :
    (c : Chain) (k : String)
    → provider_allowed (resolve_controls c) k ≡ true
    → All (λ l. str_elem k (get_or l.provider_deny []) ≡ false) (ordered c)
      × (((resolve_controls c).provider_allow ≡ [])
          ⊎ All (λ l. IsListed k l.provider_allow) (ordered c))
unfolding resolve_controls
allowed-by_layers c k h =
    let (deny, allow) = allowed_parts (resolve_controls c) k h in
    (
      deny_of-none k (ordered c) (sym (str_elem-sorted_set k (deny_of (ordered c))) ∙ deny),
      IsListed-by_layers k (ordered c) (met_list k (allow_from none (ordered c)) allow),
    )

-- Where the allow lists of the layers have no provider in common, the resolved controls allow every
-- provider that no layer denies, also one that stands in none of the lists.
pub disjoint_allow :
    (c : Chain) (k : String)
    → allow_from none (ordered c) ≡ some []
    → provider_allowed (resolve_controls c) k ≡ not (str_elem k (deny_of (ordered c)))
unfolding resolve_controls provider_allowed
disjoint_allow c k e = rw (e, str_elem-sorted_set k (deny_of (ordered c))) (ground arith)
