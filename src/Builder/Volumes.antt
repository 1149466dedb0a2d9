-- ===== src/Builder/Volumes.antt =====
-- The volumes and mounts of a pod (internal/controller/builder/builder.go).
use text.Mathlib.TextPositions.{eq_refl}
use kai_operator.Base.{
  ◌<>◌, ◌≡◌, Bool, true, List, [], ◌∷◌, ◌++◌, arith, ◌==◌, none, inl, inr, Bool-cases,
}
use kai_operator.Base.Lists.{All, All-append, any}
use kai_operator.Api.Kube.{Mount, Volume, empty_dir}
use kai_operator.Api.Task.{VolumeSpec, DataSourceSpec}
use kai_operator.Client.{Client}
use kai_operator.Builder.{volume_source, spec_volumes, data_volumes, build_volumes}

-- A volume of the pod has the mount's name.
abbrev pub names : List Volume → Mount → Bool
names vols m = any (λ v. v.name == m.name) vols

abbrev pub AllNamed : List Volume → List Mount → Type 0
AllNamed vols = All (λ m. names vols m ≡ true)

names-append_left :
    (m : Mount) (xs ys : List Volume) → names xs m ≡ true → names (xs ++ ys) m ≡ true
names-append_left m [] ys h = cc
names-append_left m (x ∷ xs) ys h = ground (arith, names-append_left m xs ys)

names-append_right :
    (m : Mount) (xs ys : List Volume) → names ys m ≡ true → names (xs ++ ys) m ≡ true
names-append_right m [] ys h = h
names-append_right m (x ∷ xs) ys h = ground (arith, names-append_right m xs ys)

All-mono :
    (P Q : Mount → Type 0) (ms : List Mount) → ((m : Mount) → P m → Q m) → All P ms → All Q ms
All-mono P Q [] f h = tt
All-mono P Q (m ∷ ms) f h = (f m h.0, All-mono P Q ms f h.1)

module _ {W : Type 0} (c : Client W) where
  spec_volumes-AllNamed :
      (vs : List VolumeSpec) → AllNamed (spec_volumes c vs).0 (spec_volumes c vs).1
  unfolding spec_volumes
  spec_volumes-AllNamed [] = tt
  spec_volumes-AllNamed (v ∷ vs) =
      let x : Volume = record { name = v.name; source = volume_source c v } in
      let later : AllNamed (x ∷ (spec_volumes c vs).0) (spec_volumes c vs).1 =
        All-mono _ _ (spec_volumes c vs).1
          (λ m. names-append_right m (x ∷ []) (spec_volumes c vs).0) (spec_volumes-AllNamed vs) in
      elim (Bool-cases (v.mount_path == "")) [
        | inl e ↦ rw e later
        | inr e ↦ rw e (simp eq_refl, later)
      ]

  data_volumes-AllNamed :
      (ds : List DataSourceSpec) → AllNamed (data_volumes c ds).0 (data_volumes c ds).1
  unfolding data_volumes
  data_volumes-AllNamed [] = tt
  data_volumes-AllNamed (d ∷ ds) =
      let x : Volume = record { name = "datasource-" <> d.type; source = empty_dir none } in
      (
        simp eq_refl,
        All-mono _ _ (data_volumes c ds).1
            (λ m. names-append_right m (x ∷ []) (data_volumes c ds).0) (data_volumes-AllNamed ds),
      )

  -- Every mount of the pod's container names one of the pod's volumes.
  pub mounts_have_volumes :
      (vs : List VolumeSpec) (ds : List DataSourceSpec)
      → let (vols, mounts) = build_volumes c vs ds in AllNamed vols mounts
  unfolding build_volumes
  mounts_have_volumes vs ds =
      All-append _ (spec_volumes c vs).1 (data_volumes c ds).1
        (All-mono _ _ (spec_volumes c vs).1
          (λ m. names-append_left m (spec_volumes c vs).0 (data_volumes c ds).0)
          (spec_volumes-AllNamed vs))
        (All-mono _ _ (data_volumes c ds).1
          (λ m. names-append_right m (spec_volumes c vs).0 (data_volumes c ds).0)
          (data_volumes-AllNamed ds))
