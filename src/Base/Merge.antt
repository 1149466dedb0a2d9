-- ===== src/Base/Merge.antt =====
-- Go's loop `for k, v := range from { m[k] = v }`, which visits the keys in any order.
use mathlib.Core.Quot
use mathlib.Core.Quot.{Quot, Quot-set}
use kai_operator.Base.{
  ◌++◌, ◌≡◌, refl, String, Option, none, some, [], ◌∷◌, arith, eq_iff, sym, ◌∙◌, ap,
}
use kai_operator.Base.Labels.{Labels, lookup, lookup-insert, insert, insert_all}

-- No key is there twice, as in a map.
abbrev pub Distinct : Labels → Type 0
Distinct [] = Unit
Distinct ((k, _) ∷ m) = (lookup k m ≡ none) × Distinct m

-- The first of two values that is there.
abbrev pub or_else : Option String → Option String → Option String
or_else none y = y
or_else (some x) y = some x

-- A merged map reads as the one that was merged into it, and where that has no value as before.
pub lookup-insert_all :
    (j : String) (from m : Labels)
    → Distinct from
    → lookup j (insert_all from m) ≡ or_else (lookup j from) (lookup j m)
unfolding insert_all
lookup-insert_all j [] m h = refl
lookup-insert_all j ((k, v) ∷ from) m h =
    ground
      (arith, eq_iff k j, h.0, lookup-insert_all j from (insert k v m) h.1, lookup-insert k j v m)

-- Two listings of one map.
abbrev SameLookups : Labels → Labels → Type 0
SameLookups a b = (k : String) → lookup k a ≡ lookup k b

-- A map of strings without the order in which a list keeps its pairs.
abbrev pub LabelMap : Type 0
LabelMap = Quot SameLookups

abbrev pub map_of : Labels → LabelMap
map_of = Quot.mk

lookup-append : (k : String) (a m : Labels) → lookup k (a ++ m) ≡ or_else (lookup k a) (lookup k m)
lookup-append k [] m = refl
lookup-append k ((j, v) ∷ a) m = ground (arith, lookup-append k a m)

prepend : Labels → LabelMap → LabelMap
prepend a =
    Quot.lift Quot-set (λ m. Quot.mk (a ++ m))
      (λ m n h.
        Quot.sound (λ k.
          lookup-append k a m ∙ (ap (or_else (lookup k a)) (h k) ∙ sym (lookup-append k a n))))

prepend-same : (a b : Labels) → SameLookups a b → (y : LabelMap) → prepend a y ≡ prepend b y
unfolding prepend
prepend-same a b h =
    Quot.ind (λ y. Quot-set _ _)
      (λ m. Quot.sound (λ k.
        lookup-append k a m ∙ (ap (λ x. or_else x (lookup k m)) (h k) ∙ sym (lookup-append k b m))))

-- The pairs of two maps, those of the first where both have a key.
pub union : LabelMap → LabelMap → LabelMap
unfolding prepend prepend-same
union x y = Quot.lift Quot-set (λ a. prepend a y) (λ a b h. prepend-same a b h y) x

-- The loop computes the union.
pub insert_all-union :
    (from m : Labels) → Distinct from → map_of (insert_all from m) ≡ union (map_of from) (map_of m)
unfolding union prepend
insert_all-union from m h =
    Quot.sound (λ k. lookup-insert_all k from m h ∙ sym (lookup-append k from m))
