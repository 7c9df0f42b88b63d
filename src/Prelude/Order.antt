-- ===== src/Prelude/Order.antt =====
-- Texts in the order of their code points, and a stable sort by a Boolean order.
use Prim.Native.String.{String, compare}
use Prim.Native.String.compare
use mathlib.Core.Path.{◌≡◌, refl, ap, ap₂}
use mathlib.Core.Bool.{Bool, true, false}
use native.Mathlib.Omega.{arith}
use text.Mathlib.Text.{is_le}
use text.Mathlib.TextEquality.{codes_equal}

-- `s <= t`
abbrev pub str_leb : String → String → Bool
str_leb s t = is_le (compare s t)

pub str_leb_total : (s t : String) → str_leb s t ≡ false → str_leb t s ≡ true
str_leb_total String.[] String.[] e = cc
str_leb_total String.[] (String.◌∷◌ d t) e = cc (compare.nil-cons d t)
str_leb_total (String.◌∷◌ c s) String.[] e = ap is_le (compare.nil-cons c s)
str_leb_total (String.◌∷◌ c s) (String.◌∷◌ d t) e =
    ground (arith, compare.cons-cons c d s t, compare.cons-cons d c t s, str_leb_total s t)

pub str_leb_antisymm : (s t : String) → str_leb s t ≡ true → str_leb t s ≡ true → s ≡ t
str_leb_antisymm String.[] String.[] e f = refl
str_leb_antisymm String.[] (String.◌∷◌ d t) e f = ground (arith, compare.cons-nil d t)
str_leb_antisymm (String.◌∷◌ c s) String.[] e f = ground (arith, compare.cons-nil c s)
str_leb_antisymm (String.◌∷◌ c s) (String.◌∷◌ d t) e f =
    ap₂ String.◌∷◌
      (codes_equal c d (ground (arith, compare.cons-cons c d s t, compare.cons-cons d c t s)))
      (str_leb_antisymm s t (ground (arith, compare.cons-cons c d s t, compare.cons-cons d c t s))
        (ground (arith, compare.cons-cons c d s t, compare.cons-cons d c t s)))

pub str_leb_trans : (s t u : String) → str_leb s t ≡ true → str_leb t u ≡ true → str_leb s u ≡ true
str_leb_trans String.[] t String.[] e f = refl
str_leb_trans String.[] t (String.◌∷◌ d u) e f = ap is_le (compare.nil-cons d u)
str_leb_trans (String.◌∷◌ c s) String.[] u e f = ground (arith, compare.cons-nil c s)
str_leb_trans (String.◌∷◌ c s) (String.◌∷◌ d t) String.[] e f = ground (arith, compare.cons-nil d t)
str_leb_trans (String.◌∷◌ c s) (String.◌∷◌ d t) (String.◌∷◌ b u) e f = ground (
  arith,
  compare.cons-cons c d s t,
  compare.cons-cons d b t u,
  compare.cons-cons c b s u,
  str_leb_trans s t u,
)
