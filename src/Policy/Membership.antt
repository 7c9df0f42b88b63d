-- ===== src/Policy/Membership.antt =====
-- Membership in the sets that the gates of src/gateway/services/policy.py ask for.
use llm_token_balancing_gate.Prelude.{
  ℕ, zero, suc, String, Bool, true, false, not, ◌||◌, List, [], ◌∷◌, ==_self, ◌==◌, ◌≡◌, refl, sym,
  ap, ◌∙◌, subst, inl, inr, str_eq, eq_iff, any, All, Elem, str_elem, arith,
}
use llm_token_balancing_gate.Domain.Enums.{Capability, Endpoint}
use llm_token_balancing_gate.Policy.{has_capability, capability_index, has_endpoint, same_endpoint}

pub not-false : (t : Bool) → not t ≡ false → t ≡ true
not-false t e = ground arith

any-Elem :
    {A : Type 0} (q : A → Bool) (c : A)
    → ((d : A) → q d ≡ true → c ≡ d)
    → (xs : List A) → any q xs ≡ true
    → Elem c xs
any-Elem q c f [] e = ground arith
any-Elem q c f (x ∷ xs) e = any_one (q x) refl e (λ e'. any-Elem q c f xs e')
  where
    any_one :
        (t : Bool)
        → q x ≡ t
        → (t || any q xs) ≡ true
        → (any q xs ≡ true → Elem c xs)
        → Elem c (x ∷ xs)
    any_one true h e' rest = inl (f x h)
    any_one false h e' rest = inr (rest e')

Elem-any :
    {A : Type 0} (q : A → Bool) (c : A) → q c ≡ true → (xs : List A) → Elem c xs → any q xs ≡ true
Elem-any q c e [] h = elim h [ ]
Elem-any q c e (x ∷ xs) (inl h) = let e' : q x ≡ true = subst (λ y. q y ≡ true) h e in rw e' refl
Elem-any q c e (x ∷ xs) (inr h) = ground (arith, Elem-any q c e xs h)

str_elem-any : (c : String) (xs : List String) → str_elem c xs ≡ any (λ x. str_eq x c) xs
str_elem-any c [] = refl
str_elem-any c (x ∷ xs) = rw (str_elem-any c xs) refl

pub str_elem→Elem : (c : String) (cs : List String) → str_elem c cs ≡ true → Elem c cs
str_elem→Elem c cs e =
    any-Elem (λ x. str_eq x c) c (λ d h. sym ((eq_iff d c).0 h)) cs (sym (str_elem-any c cs) ∙ e)

pub Elem→str-Elem : (c : String) (cs : List String) → Elem c cs → str_elem c cs ≡ true
Elem→str-Elem c cs h = str_elem-any c cs ∙ Elem-any (λ x. str_eq x c) c ((eq_iff c c).1 refl) cs h

abbrev capability_of : ℕ → Capability
capability_of zero = Capability.tools
capability_of (suc zero) = Capability.json_schema
capability_of (suc (suc zero)) = Capability.vision
capability_of (suc (suc (suc zero))) = Capability.streaming
capability_of _ = Capability.reasoning

capability_of_index : (c : Capability) → capability_of (capability_index c) ≡ c
capability_of_index Capability.tools = refl
capability_of_index Capability.json_schema = refl
capability_of_index Capability.vision = refl
capability_of_index Capability.streaming = refl
capability_of_index Capability.reasoning = refl

same_capability : (c d : Capability) → (capability_index d == capability_index c) ≡ true → c ≡ d
same_capability c d e =
    let h : capability_index c ≡ capability_index d = ground arith in
    sym (capability_of_index c) ∙ ap capability_of h ∙ capability_of_index d

same_endpoint→≡ : (c d : Endpoint) → same_endpoint c d ≡ true → c ≡ d
same_endpoint→≡ Endpoint.chat_completions Endpoint.chat_completions e = refl
same_endpoint→≡ Endpoint.responses Endpoint.responses e = refl
same_endpoint→≡ Endpoint.chat_completions Endpoint.responses e = ground arith
same_endpoint→≡ Endpoint.responses Endpoint.chat_completions e = ground arith

same_endpoint_self : (c : Endpoint) → same_endpoint c c ≡ true
same_endpoint_self Endpoint.chat_completions = refl
same_endpoint_self Endpoint.responses = refl

pub has_capability→Elem :
    (c : Capability) (cs : List Capability) → has_capability c cs ≡ true → Elem c cs
has_capability→Elem c cs =
    any-Elem _ c (λ d. let h = same_capability d c in λ e. sym (h (ground arith))) cs

pub Elem→has_capability :
    (c : Capability) (cs : List Capability) → Elem c cs → has_capability c cs ≡ true
Elem→has_capability c = Elem-any _ c (==_self (capability_index c))

pub has_endpoint→Elem : (c : Endpoint) (cs : List Endpoint) → has_endpoint c cs ≡ true → Elem c cs
has_endpoint→Elem c = any-Elem _ c (same_endpoint→≡ c)

pub Elem→has_endpoint : (c : Endpoint) (cs : List Endpoint) → Elem c cs → has_endpoint c cs ≡ true
Elem→has_endpoint c = Elem-any _ c (same_endpoint_self c)

-- A test that decides membership, for a list of demands.
module _ {A : Type 0} (p : A → List A → Bool) (xs : List A) where
  pub any_missing→All :
      ((a : A) → p a xs ≡ true → Elem a xs)
      → (ds : List A) → any (λ d. not (p d xs)) ds ≡ false
      → All (λ d. Elem d xs) ds
  any_missing→All f [] e = tt
  any_missing→All f (d ∷ ds) e = (f d (ground arith), any_missing→All f ds (ground arith))

  pub All→any_missing :
      ((a : A) → Elem a xs → p a xs ≡ true)
      → (ds : List A) → All (λ d. Elem d xs) ds
      → any (λ d. not (p d xs)) ds ≡ false
  All→any_missing f [] h = refl
  All→any_missing f (d ∷ ds) h = rw (f d h.0) (All→any_missing f ds h.1)
