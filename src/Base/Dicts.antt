-- ===== src/Base/Dicts.antt =====
-- Python's `dict`: the entries in the order in which their keys were first set.
use mathlib.Core.Path.{◌≡◌, refl}
use mathlib.Core.Option.{Option, none, some}
use mathlib.Core.List.{List, [], ◌∷◌}
use native.Mathlib.Omega.{arith}
use marketplace_pipeline.Base.Tests.{Eq, ◌==◌, is_some, Bool-cases, if◌then◌else◌}
use marketplace_pipeline.Base.Lists.{filter}
use mathlib.Core.Bool.{Bool, false}
use mathlib.Core.Logic.{inl, inr}

abbrev pub Dict {ℓ κ} : Type ℓ → Type κ → Type (ℓ ⊔ κ)
Dict K V = List (K × V)

module _ {ℓ κ} {K : Type ℓ} {V : Type κ} ⦃e : Eq K⦄ where
  -- `d.get(k)`
  unfoldable pub lookup : K → Dict K V → Option V
  lookup k [] = none
  lookup k ((j, v) ∷ d) = if j == k then some v else lookup k d

  -- `d[k] = v`
  unfoldable pub insert : K → V → Dict K V → Dict K V
  insert k v [] = (k, v) ∷ []
  insert k v ((j, w) ∷ d) = if j == k then (j, v) ∷ d else (j, w) ∷ insert k v d

  -- `d.pop(k, None)`
  unfoldable pub erase : K → Dict K V → Dict K V
  erase k [] = []
  erase k ((j, w) ∷ d) = let rest = erase k d in if j == k then rest else (j, w) ∷ rest

  pub lookup-insert :
      (k j : K) (v : V) (d : Dict K V)
      → lookup j (insert k v d) ≡ (if k == j then some v else lookup j d)
  unfolding lookup insert
  lookup-insert k j v [] = refl
  lookup-insert k j v ((i, w) ∷ d) =
      ground (arith, e.beq_iff k j, e.beq_iff i k, e.beq_iff i j, lookup-insert k j v d)

  pub lookup-erase :
      (k j : K) (d : Dict K V) → lookup j (erase k d) ≡ (if k == j then none else lookup j d)
  unfolding lookup erase
  lookup-erase k j [] = ground arith
  lookup-erase k j ((i, w) ∷ d) =
      ground (arith, e.beq_iff k j, e.beq_iff i k, e.beq_iff i j, lookup-erase k j d)

  pub lookup-insert_self : (k : K) (v : V) (d : Dict K V) → lookup k (insert k v d) ≡ some v
  lookup-insert_self k v d = ground (arith, lookup-insert k k v d, e.beq_iff k k)

module _ {ℓ κ} {K : Type ℓ} {V : Type κ} ⦃e : Eq K⦄ where
  -- The keys differ from one another, as those of a `dict` do.
  abbrev pub KeysDistinct : Dict K V → Type 0
  KeysDistinct [] = Unit
  KeysDistinct ((k, v) ∷ d) = (is_some (lookup k d) ≡ false) × KeysDistinct d

  abbrev pub keep_if : (K × V → Bool) → K → Option V → Option V
  keep_if p k none = none
  keep_if p k (some v) = if p (k, v) then some v else none

  pub missing-filter :
      (p : K × V → Bool) (k : K) (d : Dict K V)
      → is_some (lookup k d) ≡ false
      → lookup k (filter p d) ≡ none
  unfolding lookup filter
  missing-filter p k [] h = refl
  missing-filter p k ((j, v) ∷ d) h = ground (arith, missing-filter p k d)

  pub lookup-filter :
      (p : K × V → Bool) (k : K) (d : Dict K V)
      → KeysDistinct d
      → lookup k (filter p d) ≡ keep_if p k (lookup k d)
  unfolding lookup filter
  lookup-filter p k [] h = refl
  lookup-filter p k ((j, v) ∷ d) h =
      ground (arith, lookup-filter p k d h.1, missing-filter p j d h.0, e.beq_iff j k)

  pub filter-KeysDistinct :
      (p : K × V → Bool) (d : Dict K V) → KeysDistinct d → KeysDistinct (filter p d)
  unfolding filter
  filter-KeysDistinct p [] h = tt
  filter-KeysDistinct p ((j, v) ∷ d) h = elim (Bool-cases (p (j, v))) [
    | inl t ↦ rw t (rw (missing-filter p j d h.0), filter-KeysDistinct p d h.1)
    | inr t ↦ rw t (filter-KeysDistinct p d h.1)
  ]

  pub insert-KeysDistinct :
      (k : K) (v : V) (d : Dict K V) → KeysDistinct d → KeysDistinct (insert k v d)
  unfolding insert lookup
  insert-KeysDistinct k v [] h = (refl, tt)
  insert-KeysDistinct k v ((j, w) ∷ d) h = elim (Bool-cases (j == k)) [
    | inl t ↦ rw t h
    | inr t ↦ rw t (
      ground (arith, lookup-insert k j v d, e.beq_iff k j, e.beq_iff j k, h.0),
      insert-KeysDistinct k v d h.1,
    )
  ]

  pub erase-KeysDistinct : (k : K) (d : Dict K V) → KeysDistinct d → KeysDistinct (erase k d)
  unfolding erase
  erase-KeysDistinct k [] h = tt
  erase-KeysDistinct k ((j, w) ∷ d) h = elim (Bool-cases (j == k)) [
    | inl t ↦ rw t (erase-KeysDistinct k d h.1)
    | inr t ↦ rw t (
      ground (arith, lookup-erase k j d, e.beq_iff k j, e.beq_iff j k, h.0),
      erase-KeysDistinct k d h.1,
    )
  ]
