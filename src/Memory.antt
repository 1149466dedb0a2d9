-- ===== src/Memory.antt =====
-- Values of the API types as Go keeps them in memory, and their deep copies
-- (api/v1alpha1/zz_generated.deepcopy.go). A pointer, slice or map that is not nil has an address,
-- and a copy asks for new ones; what is at an address is written with it, since a value of these types
-- holds no cycle. `make` gives an address for an empty slice too.
pub mod Rules
pub mod Shared
pub mod Flat
pub mod Inference
pub mod DevTask
pub mod Train
pub mod FineTune
pub mod Eval
pub mod Copies
mod Tests
use kai_operator.Api.Meta.{ObjectMeta, Time}
use kai_operator.Base.{ℕ, ◌+◌, Option, none, some, List, [], ◌∷◌, ◌++◌}

-- What a pointer, slice or map that is not nil refers to.
pub record Ref (A : Type 0) : Type 0 where
  pub address : ℕ
  pub content : A

-- Code that allocates: it takes the next free address, and gives the one that is free after it.
abbrev pub Alloc : Type 0 → Type 0
Alloc A = ℕ → A × ℕ

abbrev pub pure : {A : Type 0} → A → Alloc A
pure a n = (a, n)

infixl 5 ◌>>=◌
abbrev pub ◌>>=◌ : {A B : Type 0} → Alloc A → (A → Alloc B) → Alloc B
◌>>=◌ m f n = f (m n).0 (m n).1

-- `new` or `make`.
abbrev pub fresh : Alloc ℕ
fresh n = (n, n + 1)

-- `if in.F != nil { out.F = new(T) … }`: nil stays nil, and the content is copied to a new address.
abbrev pub copy_ref : {A : Type 0} → (A → Alloc A) → Option (Ref A) → Alloc (Option (Ref A))
copy_ref f none = pure none
copy_ref f (some r) = do
  p ← fresh
  c ← f r.content
  pure (some (record { address = p; content = c }))

-- The same where the copy of the content allocates for itself (`*out = (*in).DeepCopy()`).
abbrev pub copy_or_nil : {A : Type 0} → (A → Alloc A) → Option A → Alloc (Option A)
copy_or_nil f none = pure none
copy_or_nil f (some a) = do b ← f a; pure (some b)

-- `for i := range *in { (*in)[i].DeepCopyInto(&(*out)[i]) }`.
abbrev pub copy_each : {A : Type 0} → (A → Alloc A) → List A → Alloc (List A)
copy_each f [] = pure []
copy_each f (a ∷ l) = do b ← f a; rest ← copy_each f l; pure (b ∷ rest)

-- A type in memory, of which `value` forgets the addresses: its `DeepCopyInto`, and the addresses that
-- a value holds.
pub record Copier (A V : Type 0) : Type 0 where
  pub copy : A → Alloc A
  pub addresses : A → List ℕ
  pub value : A → V

module _ {A : Type 0} where
  abbrev pub at_ref : (A → List ℕ) → Option (Ref A) → List ℕ
  at_ref f none = []
  at_ref f (some r) = r.address ∷ f r.content

  abbrev pub at_option : (A → List ℕ) → Option A → List ℕ
  at_option f none = []
  at_option f (some a) = f a

  abbrev pub at_each : (A → List ℕ) → List A → List ℕ
  at_each f [] = []
  at_each f (a ∷ l) = f a ++ at_each f l

module _ {A V : Type 0} where
  abbrev pub ref_value : (A → V) → Option (Ref A) → Option V
  ref_value f none = none
  ref_value f (some r) = some (f r.content)

  abbrev pub option_value : (A → V) → Option A → Option V
  option_value f none = none
  option_value f (some a) = some (f a)

  abbrev pub each_value : (A → V) → List A → List V
  each_value f [] = []
  each_value f (a ∷ l) = f a ∷ each_value f l

  abbrev pub pointer : Copier A V → Copier (Option (Ref A)) (Option V)
  pointer c = record {
    copy = copy_ref c.copy;
    addresses = at_ref c.addresses;
    value = ref_value c.value;
  }

  abbrev pub or_nil : Copier A V → Copier (Option A) (Option V)
  or_nil c = record {
    copy = copy_or_nil c.copy;
    addresses = at_option c.addresses;
    value = option_value c.value;
  }

  abbrev pub each : Copier A V → Copier (List A) (List V)
  each c = record {
    copy = copy_each c.copy;
    addresses = at_each c.addresses;
    value = each_value c.value;
  }

abbrev pub list_or_empty : {V : Type 0} → Option (List V) → List V
list_or_empty none = []
list_or_empty (some l) = l

-- A slice or a map; nil stands for the empty one.
abbrev pub slice :
    {A V : Type 0} → Copier (List A) (List V) → Copier (Option (Ref (List A))) (List V)
slice c = record {
  copy = copy_ref c.copy;
  addresses = at_ref c.addresses;
  value = λ r. list_or_empty (ref_value c.value r);
}

-- A type without pointers, slices and maps: `*out = *in`.
abbrev pub flat : {A : Type 0} → Copier A A
flat = record { copy = pure; addresses = λ _. []; value = λ a. a }

-- Two fields, one after the other.
abbrev pub both : {A V B X : Type 0} → Copier A V → Copier B X → Copier (A × B) (V × X)
both c d = record {
  copy = λ p. (do a ← c.copy p.0; b ← d.copy p.1; pure (a, b));
  addresses = λ p. c.addresses p.0 ++ d.addresses p.1;
  value = λ p. (c.value p.0, d.value p.1);
}

-- A struct, by its fields that hold addresses, taken together as `parts`: `fields` reads them, `put`
-- writes them, and `build` gives the value of the struct from theirs.
pub record Layout (A T V X : Type 0) : Type 0 where
  pub parts : Copier T X
  pub fields : A → T
  pub put : A → T → A
  pub build : A → X → V

abbrev pub struct : {A T V X : Type 0} → Layout A T V X → Copier A V
struct s = record {
  copy = λ a. (do t ← s.parts.copy (s.fields a); pure (s.put a t));
  addresses = λ a. s.parts.addresses (s.fields a);
  value = λ a. s.build a (s.parts.value (s.fields a));
}

-- The types of apimachinery that the API types hold: `ObjectMeta`, `ListMeta`, of which nothing is
-- read, and the pointers to a `Time` that are not nil. Their copies are not code of the repository.
pub record Library (M L T : Type 0) : Type 0 where
  pub object_meta : Copier M ObjectMeta
  pub list_meta : Copier L (Unit {0})
  pub time : Copier T Time
