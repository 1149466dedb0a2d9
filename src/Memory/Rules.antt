-- ===== src/Memory/Rules.antt =====
-- Deep copies: one rule for each way to put a copy together.
use kai_operator.Base.{
  ℕ, ◌+◌, ◌≤◌, ◌<◌, ◌≡◌, refl, ap, sym, subst, ◌∙◌, Option, none, some, List, [], ◌∷◌, arith,
}
use kai_operator.Base.Lists.{All, All-append}
use kai_operator.Memory.{
  Ref, Copier, pointer, or_nil, each, slice, flat, both, list_or_empty, Layout, struct, Library,
}

-- An address between two others, the second one excluded.
abbrev pub Within : ℕ → ℕ → ℕ → Type 0
Within n m p = (n ≤ p) × (p < m)

-- A copy holds addresses only that were free before it and are not after it, and its value is that of
-- the original.
pub record IsDeep {A V : Type 0} (c : Copier A V) : Type 0 where
  pub grows : (a : A) (n : ℕ) → n ≤ (c.copy a n).1
  pub owns : (a : A) (n : ℕ) → All (Within n (c.copy a n).1) (c.addresses (c.copy a n).0)
  pub keeps : (a : A) (n : ℕ) → c.value (c.copy a n).0 ≡ c.value a

-- The copies of apimachinery are deep, as they are documented to be.
pub record LibraryIsDeep {M L T : Type 0} (l : Library M L T) : Type 0 where
  pub object_meta : IsDeep l.object_meta
  pub list_meta : IsDeep l.list_meta
  pub time : IsDeep l.time

widen : (n n' m m' : ℕ) (l : List ℕ) → n' ≤ n → m ≤ m' → All (Within n m) l → All (Within n' m') l
widen n n' m m' [] h k x = tt
widen n n' m m' (p ∷ l) h k x =
    ((omega (arith, x.0.0, h), omega (arith, x.0.1, k)), widen n n' m m' l h k x.1)

pub flat-IsDeep : {A : Type 0} → IsDeep (flat {A = A})
flat-IsDeep = record { grows = λ a n. omega arith; owns = λ a n. tt; keeps = λ a n. refl }

module _ {A V : Type 0} {c : Copier A V} (h : IsDeep c) where
  pub pointer-IsDeep : IsDeep (pointer c)
  pointer-IsDeep = record { grows = grows; owns = owns; keeps = keeps }
    where
      grows : (r : Option (Ref A)) (n : ℕ) → n ≤ ((pointer c).copy r n).1
      grows none n = omega arith
      grows (some r) n = omega (arith, h.grows r.content (n + 1))

      owns :
          (r : Option (Ref A)) (n : ℕ)
          → All (Within n ((pointer c).copy r n).1) ((pointer c).addresses ((pointer c).copy r n).0)
      owns none n = tt
      owns (some r) n = (
        (omega arith, omega (arith, h.grows r.content (n + 1))),
        widen (n + 1) n _ _ _ (omega arith) (omega arith) (h.owns r.content (n + 1)),
      )

      keeps :
          (r : Option (Ref A)) (n : ℕ)
          → (pointer c).value ((pointer c).copy r n).0 ≡ (pointer c).value r
      keeps none n = refl
      keeps (some r) n = ap (λ v. some v) (h.keeps r.content (n + 1))

  pub or_nil-IsDeep : IsDeep (or_nil c)
  or_nil-IsDeep = record { grows = grows; owns = owns; keeps = keeps }
    where
      grows : (r : Option A) (n : ℕ) → n ≤ ((or_nil c).copy r n).1
      grows none n = omega arith
      grows (some a) n = h.grows a n

      owns :
          (r : Option A) (n : ℕ)
          → All (Within n ((or_nil c).copy r n).1) ((or_nil c).addresses ((or_nil c).copy r n).0)
      owns none n = tt
      owns (some a) n = h.owns a n

      keeps : (r : Option A) (n : ℕ) → (or_nil c).value ((or_nil c).copy r n).0 ≡ (or_nil c).value r
      keeps none n = refl
      keeps (some a) n = ap (λ v. some v) (h.keeps a n)

module _ {A V B X : Type 0} {c : Copier A V} {d : Copier B X} (h : IsDeep c) (k : IsDeep d) where
  pub both-IsDeep : IsDeep (both c d)
  both-IsDeep = record {
    grows = λ p n. omega (arith, h.grows p.0 n, k.grows p.1 (c.copy p.0 n).1);
    owns = λ p n.
        All-append (Within n ((both c d).copy p n).1) _ _
          (widen n n _ _ _ (omega arith) (k.grows p.1 (c.copy p.0 n).1) (h.owns p.0 n))
          (widen (c.copy p.0 n).1 n _ _ _ (h.grows p.0 n) (omega arith)
            (k.owns p.1 (c.copy p.0 n).1));
    keeps = λ p n.
        ap (λ v. (v, d.value ((both c d).copy p n).0.1)) (h.keeps p.0 n)
        ∙ ap (λ v. (c.value p.0, v)) (k.keeps p.1 (c.copy p.0 n).1);
  }

module _ {A V : Type 0} {c : Copier A V} (h : IsDeep c) where
  pub each-IsDeep : IsDeep (each c)
  each-IsDeep = record { grows = grows; owns = owns; keeps = keeps }
    where
      grows : (l : List A) (n : ℕ) → n ≤ ((each c).copy l n).1
      grows [] n = omega arith
      grows (a ∷ l) n = omega (arith, h.grows a n, grows l (c.copy a n).1)

      owns :
          (l : List A) (n : ℕ)
          → All (Within n ((each c).copy l n).1) ((each c).addresses ((each c).copy l n).0)
      owns [] n = tt
      owns (a ∷ l) n =
          All-append (Within n ((each c).copy (a ∷ l) n).1) _ _
            (widen n n _ _ _ (omega arith) (grows l (c.copy a n).1) (h.owns a n))
            (widen (c.copy a n).1 n _ _ _ (h.grows a n) (omega arith) (owns l (c.copy a n).1))

      keeps : (l : List A) (n : ℕ) → (each c).value ((each c).copy l n).0 ≡ (each c).value l
      keeps [] n = refl
      keeps (a ∷ l) n =
          ap (λ v. v ∷ (each c).value ((each c).copy l (c.copy a n).1).0) (h.keeps a n)
          ∙ ap (λ v. c.value a ∷ v) (keeps l (c.copy a n).1)

pub slice-IsDeep : {A V : Type 0} {c : Copier (List A) (List V)} → IsDeep c → IsDeep (slice c)
slice-IsDeep {c = c} h =
    let p = pointer-IsDeep h in
    record { grows = p.grows; owns = p.owns; keeps = λ r n. ap list_or_empty (p.keeps r n) }

-- A struct is copied as its fields with addresses are, which are written to a copy of the rest.
pub struct-IsDeep :
    {A T V X : Type 0} (s : Layout A T V X)
    → ((a : A) (t : T) → s.fields (s.put a t) ≡ t)
    → ((a : A) (t : T) (x : X) → s.build (s.put a t) x ≡ s.build a x)
    → IsDeep s.parts
    → IsDeep (struct s)
struct-IsDeep s read same h = record {
  grows = λ a n. h.grows (s.fields a) n;
  owns = λ a n.
      subst (λ t. All (Within n (s.parts.copy (s.fields a) n).1) (s.parts.addresses t))
        (sym (read a _)) (h.owns (s.fields a) n);
  keeps = λ a n.
      same a _ _
      ∙ ap (s.build a)
          (ap s.parts.value (read a (s.parts.copy (s.fields a) n).0) ∙ h.keeps (s.fields a) n);
}
