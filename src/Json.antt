-- ===== src/Json.antt =====
-- The values of `json.loads`, as src/gateway/validators/deterministic.py reads them: a float is m / 2^k,
-- and the tokens NaN and Infinity are not represented. The keys of an object are distinct.
use llm_token_balancing_gate.Prelude.{
  ℕ, zero, suc, ◌*◌, ◌^◌, String, Bool, true, false, ◌&&◌, ◌||◌, Option, none, some, ◌==◌, str_eq,
  if◌then◌else◌, ℤ, pos, pos_part, neg_part,
}

mutual
  pub data Json : Type 0 where
    null : Json
    boolean : Bool → Json
    integer : ℤ → Json
    float : ℤ → ℕ → Json
    text : String → Json
    array : Items → Json
    object : Fields → Json

  pub data Items : Type 0 where
    nil : Items
    cons : Json → Items → Items

  pub data Fields : Type 0 where
    end : Fields
    field : String → Json → Fields → Fields

-- `mapping.get(key)`
unfoldable pub get : String → Fields → Option Json
get k end = none
get k (field j v fs) = if str_eq j k then some v else get k fs

abbrev pub size : Fields → ℕ
size end = 0
size (field k v fs) = suc (size fs)

-- Numbers are equal by value, and a Boolean is the number 0 or 1.
pub data Number : Type 0 where
  no_number : Number
  ratio : ℤ → ℕ → Number

abbrev pub number_of : Json → Number
number_of (boolean b) = ratio (pos (if b then 1 else 0)) 0
number_of (integer n) = ratio n 0
number_of (float m k) = ratio m k
number_of _ = no_number

abbrev pub same_number : Number → Number → Bool
same_number (ratio m k) (ratio n j) =
    pos_part m * 2 ^ j == pos_part n * 2 ^ k && neg_part m * 2 ^ j == neg_part n * 2 ^ k
same_number _ _ = false

-- `==` on two values.
unfoldable mutual
  pub py_eq : Json → Json → Bool
  py_eq null null = true
  py_eq (text s) (text t) = str_eq s t
  py_eq (array xs) (array ys) = items_eq xs ys
  py_eq (object fs) (object gs) = size fs == size gs && fields_eq fs gs
  py_eq a b = same_number (number_of a) (number_of b)

  pub items_eq : Items → Items → Bool
  items_eq nil nil = true
  items_eq (cons x xs) (cons y ys) = py_eq x y && items_eq xs ys
  items_eq _ _ = false

  pub fields_eq : Fields → Fields → Bool
  fields_eq end gs = true
  fields_eq (field k v fs) gs =
      elim (get k gs) [ none ↦ false | some w ↦ py_eq v w ] && fields_eq fs gs

-- `value in values`
unfoldable pub in_items : Json → Items → Bool
unfolding py_eq
in_items v nil = false
in_items v (cons x xs) = py_eq x v || in_items v xs

-- `bool(value)`
abbrev pub is_truthy : Json → Bool
is_truthy null = false
is_truthy (boolean b) = b
is_truthy (integer (pos zero)) = false
is_truthy (integer _) = true
is_truthy (float (pos zero) k) = false
is_truthy (float _ k) = true
is_truthy (text s) = if str_eq s "" then false else true
is_truthy (array nil) = false
is_truthy (array (cons x xs)) = true
is_truthy (object end) = false
is_truthy (object (field k v fs)) = true
