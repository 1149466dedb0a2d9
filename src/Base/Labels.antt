-- ===== src/Base/Labels.antt =====
-- Go's `map[string]string` as an association list: a read, a write and a merge. A nil map reads as
-- the empty one, and the code makes a map before it writes to a nil one.
use Prim.Native.String.{String}
use mathlib.Core.Bool.{Bool, true, false, ◌&&◌}
use mathlib.Core.List.{List, [], ◌∷◌}
use mathlib.Core.Option.{Option, none, some}
use mathlib.Core.Path.{◌≡◌, refl}
use native.Mathlib.Omega.{arith}
use text.Mathlib.Text.{◌==◌}
use text.Mathlib.TextEquality.{eq_iff}

abbrev pub Labels : Type 0
Labels = List (String × String)

abbrev pub cond {ℓ} : {A : Type ℓ} → Bool → A → A → A
cond true x y = x
cond false x y = y

abbrev pub lookup : String → Labels → Option String
lookup k [] = none
lookup k ((j, v) ∷ m) = cond (j == k) (some v) (lookup k m)

unfoldable pub insert : String → String → Labels → Labels
insert k v [] = (k, v) ∷ []
insert k v ((j, w) ∷ m) = cond (j == k) ((k, v) ∷ m) ((j, w) ∷ insert k v m)

-- `for k, v := range from { m[k] = v }`; the keys of a map are distinct, so the order of the writes
-- does not matter.
unfoldable pub insert_all : Labels → Labels → Labels
unfolding insert
insert_all [] m = m
insert_all ((k, v) ∷ from) m = insert_all from (insert k v m)

-- Two keys compare equal only if they are.
pub lookup-insert :
    (k j v : String) (m : Labels) → lookup j (insert k v m) ≡ cond (k == j) (some v) (lookup j m)
unfolding insert
lookup-insert k j v [] = refl
lookup-insert k j v ((i, w) ∷ m) =
    ground (arith, eq_iff k j, eq_iff i k, eq_iff i j, lookup-insert k j v m)

-- Does a label selector select an object with these labels: every pair of the selector is there.
abbrev pub selects : Labels → Labels → Bool
selects [] labels = true
selects ((k, v) ∷ rest) labels =
    elim (lookup k labels) [ none ↦ false | some w ↦ w == v ] && selects rest labels
