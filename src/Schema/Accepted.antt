-- ===== src/Schema/Accepted.antt =====
-- What `_check_schema` of src/gateway/validators/deterministic.py accepts of an object.
use mathlib.Core.Logic.Iff
use llm_token_balancing_gate.Prelude.{
  String, Bool, true, false, Option, none, some, [], ◌∷◌, ◌++◌, ◌≡◌, refl, ap, ◌↔◌, str_eq,
  if◌then◌else◌, is_some, arith, some_eq,
}
use llm_token_balancing_gate.Json.{
  Json, null, boolean, integer, float, text, array, object, Items, nil, cons, Fields, end, field,
  get,
}
use llm_token_balancing_gate.Schema.{
  key, JsonPath, Checked, codes, type_mismatch, is_object, is_instance, raised, extend, check_name,
  one_missing, check_names, check_present, check_each, check_dict, find_checkers, check_schema,
  checkers_of, table_of, tables_of,
}

abbrev pub IsClean : Checked → Type 0
IsClean c = c ≡ codes []

-- Every name is a text and a key of the value.
abbrev pub HasKeys : Items → Fields → Type 0
HasKeys nil vs = Unit
HasKeys (cons (text s) ns) vs = (is_some (get s vs) ≡ true) × HasKeys ns vs
HasKeys (cons _ ns) vs = ⊥

abbrev pub IsCleanAt : Json → Option Json → JsonPath → Type 0
IsCleanAt s none p = Unit
IsCleanAt s (some v) p = IsClean (check_schema s v p)

-- Every property of the schema that the value has is accepted by its own schema.
abbrev pub HasProperties : Fields → Fields → JsonPath → Type 0
HasProperties end vs p = Unit
HasProperties (field k s ps) vs p = IsCleanAt s (get k vs) (p ++ key k ∷ []) × HasProperties ps vs p

extend-IsClean : (a b : Checked) → IsClean (extend a b) ↔ (IsClean a × IsClean b)
extend-IsClean (codes []) (codes ys) = ((λ e. (refl, e)), λ h. h.1)
extend-IsClean (codes (x ∷ xs)) (codes ys) =
    ((λ e. absurd (ground arith)), λ h. absurd (ground (arith, h.0)))
extend-IsClean (codes xs) raised = ((λ e. absurd (ground arith)), λ h. absurd (ground (arith, h.1)))
extend-IsClean raised b = ((λ e. absurd (ground arith)), λ h. absurd (ground (arith, h.0)))

both {ℓ} : {A B C D : Type ℓ} → A ↔ B → C ↔ D → (A × C) ↔ (B × D)
both f g = ((λ h. (f.0 h.0, g.0 h.1)), λ h. (f.1 h.0, g.1 h.1))

one_missing-IsClean :
    (t : Bool) (p : JsonPath) (n : Json) → IsClean (one_missing t p n) ↔ (t ≡ true)
one_missing-IsClean true p n = ((λ _. refl), λ _. refl)
one_missing-IsClean false p n = ((λ e. absurd (ground arith)), λ e. absurd (ground arith))

never-IsClean :
    (p : JsonPath) (n : Json) (rest : Checked) → IsClean (extend (one_missing false p n) rest) ↔ ⊥
never-IsClean p n (codes ys) = ((λ e. ground arith), λ h. absurd h)
never-IsClean p n raised = ((λ e. ground arith), λ h. absurd h)

check_names-IsClean :
    (ns : Items) (vs : Fields) (p : JsonPath) → IsClean (check_names ns vs p) ↔ HasKeys ns vs
unfolding check_names
check_names-IsClean nil vs p = ((λ _. tt), λ _. refl)
check_names-IsClean (cons (text s) ns) vs p =
    Iff.trans (extend-IsClean (check_name (text s) vs p) (check_names ns vs p))
      (both (one_missing-IsClean (is_some (get s vs)) p (text s)) (check_names-IsClean ns vs p))
check_names-IsClean (cons (array xs) ns) vs p = ((λ e. ground arith), λ h. absurd h)
check_names-IsClean (cons (object fs) ns) vs p = ((λ e. ground arith), λ h. absurd h)
check_names-IsClean (cons null ns) vs p = never-IsClean p null (check_names ns vs p)
check_names-IsClean (cons (boolean b) ns) vs p = never-IsClean p (boolean b) (check_names ns vs p)
check_names-IsClean (cons (integer n) ns) vs p = never-IsClean p (integer n) (check_names ns vs p)
check_names-IsClean (cons (float m k) ns) vs p = never-IsClean p (float m k) (check_names ns vs p)

present-IsClean :
    (s : Json) (o : Option Json) (p : JsonPath)
    → IsClean (check_present o (check_schema s) p) ↔ IsCleanAt s o p
present-IsClean s none p = ((λ _. tt), λ _. refl)
present-IsClean s (some v) p = ((λ e. e), λ e. e)

check_each-IsClean :
    (ps vs : Fields) (p : JsonPath)
    → IsClean (check_each (checkers_of ps) vs p) ↔ HasProperties ps vs p
unfolding check_each checkers_of
check_each-IsClean end vs p = ((λ _. tt), λ _. refl)
check_each-IsClean (field k s ps) vs p =
    Iff.trans
      (extend-IsClean (check_present (get k vs) (check_schema s) (p ++ key k ∷ []))
        (check_each (checkers_of ps) vs p))
      (both (present-IsClean s (get k vs) (p ++ key k ∷ [])) (check_each-IsClean ps vs p))

-- The table of the properties is found under its key.
find-tables_of :
    (k : String) (fs ps : Fields)
    → get k fs ≡ some (object ps)
    → find_checkers k (tables_of fs) ≡ checkers_of ps
unfolding get tables_of
find-tables_of k end ps e = absurd (ground arith)
find-tables_of k (field j s fs) ps e = by_test (str_eq j k) e (find-tables_of k fs ps)
  where
    by_test :
        (t : Bool)
        → (if t then some s else get k fs) ≡ some (object ps)
        → (get k fs ≡ some (object ps) → find_checkers k (tables_of fs) ≡ checkers_of ps)
        → (if t then table_of s else find_checkers k (tables_of fs)) ≡ checkers_of ps
    by_test true q ih = ap table_of (some_eq q)
    by_test false q ih = ih q

-- By a schema for objects that lists its required names and its properties, and no enumeration, an object
-- is accepted exactly if it has every required name as a key, and every property that it has is accepted
-- by its own schema.
pub check_schema-object_iff :
    (fs ps vs : Fields) (ns : Items) (p : JsonPath)
    → get "type" fs ≡ some (text "object")
    → get "required" fs ≡ some (array ns)
    → get "properties" fs ≡ some (object ps)
    → get "enum" fs ≡ none
    → IsClean (check_schema (object fs) (object vs) p) ↔ (HasKeys ns vs × HasProperties ps vs p)
unfolding check_schema check_dict
check_schema-object_iff fs ps vs ns p is_object required properties no_enum =
    rw (is_object, required, properties, no_enum, find-tables_of "properties" fs ps properties)
      (Iff.trans
        (extend-IsClean (extend (check_names ns vs p) (check_each (checkers_of ps) vs p))
          (codes []))
        (Iff.trans ((λ h. h.0), λ h. (h, refl))
          (Iff.trans (extend-IsClean (check_names ns vs p) (check_each (checkers_of ps) vs p))
            (both (check_names-IsClean ns vs p) (check_each-IsClean ps vs p)))))

-- By a schema for objects, any other value has the wrong type.
pub check_schema-mismatch :
    (fs : Fields) (v : Json) (p : JsonPath)
    → get "type" fs ≡ some (text "object")
    → is_object v ≡ false
    → check_schema (object fs) v p ≡ codes (type_mismatch p ∷ [])
unfolding check_schema check_dict is_instance
check_schema-mismatch fs v p e h = rw (e, h) refl
