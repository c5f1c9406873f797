-- ===== src/Base/Sorting.antt =====
-- Python's `sorted(items, key=..., reverse=...)`: a stable sort, also when it is reversed.
use mathlib.Core.List.{Perm}
use mathlib.Core.List.Perm
use Prim.Native.Nat.{ℕ, suc}
use mathlib.Core.Path.{◌≡◌, refl}
use mathlib.Core.Logic.{inl, inr}
use mathlib.Core.Bool.{Bool, true, false}
use mathlib.Core.List.{List, [], ◌∷◌}
use native.Mathlib.Omega.{arith}
use marketplace_pipeline.Base.Tests.{ltb, nat_eq, if◌then◌else◌, Bool-cases}
use marketplace_pipeline.Base.Lists.{filter, length, All, All-map}

module _ {ℓ} {A : Type ℓ} (key : A → ℕ) (reverse : Bool) where
  -- `a` has to stand before `b`.
  abbrev pub precedes : A → A → Bool
  precedes a b = if reverse then ltb (key b) (key a) else ltb (key a) (key b)

  -- `x` goes before the first item that need not stand before it.
  abbrev pub insert_sorted : A → List A → List A
  insert_sorted x [] = x ∷ []
  insert_sorted x (y ∷ ys) =
      let further = y ∷ insert_sorted x ys in if precedes y x then further else x ∷ y ∷ ys

  unfoldable pub sorted : List A → List A
  sorted [] = []
  sorted (x ∷ xs) = insert_sorted x (sorted xs)

  -- No item stands behind one that it has to precede.
  abbrev pub IsSorted : List A → Type 0
  IsSorted [] = Unit
  IsSorted (x ∷ xs) = All (λ y. precedes y x ≡ false) xs × IsSorted xs

  insert_sorted-perm : (x : A) (ys : List A) → Perm (insert_sorted x ys) (x ∷ ys)
  insert_sorted-perm x [] = Perm.refl (x ∷ [])
  insert_sorted-perm x (y ∷ ys) = elim (Bool-cases (precedes y x)) [
    | inl h ↦ rw h (Perm.trans (Perm.cons y (insert_sorted-perm x ys)) (Perm.swap x y ys))
    | inr h ↦ rw h (Perm.refl (x ∷ y ∷ ys))
  ]

  length-insert_sorted : (x : A) (ys : List A) → length (insert_sorted x ys) ≡ suc (length ys)
  length-insert_sorted x [] = refl
  length-insert_sorted x (y ∷ ys) = ground (arith, length-insert_sorted x ys)

  pub length-sorted : (xs : List A) → length (sorted xs) ≡ length xs
  unfolding sorted
  length-sorted [] = refl
  length-sorted (x ∷ xs) = omega (arith, length-insert_sorted x (sorted xs), length-sorted xs)

  pub sorted-perm : (xs : List A) → Perm (sorted xs) xs
  unfolding sorted
  sorted-perm [] = Perm.refl []
  sorted-perm (x ∷ xs) =
      Perm.trans (insert_sorted-perm x (sorted xs)) (Perm.cons x (sorted-perm xs))

  All-insert_sorted :
      (P : A → Type 0) (x : A) (ys : List A) → P x → All P ys → All P (insert_sorted x ys)
  All-insert_sorted P x [] px h = (px, tt)
  All-insert_sorted P x (y ∷ ys) px h = elim (Bool-cases (precedes y x)) [
    | inl e ↦ rw e (h.0, All-insert_sorted P x ys px h.1)
    | inr e ↦ rw e (px, h)
  ]

  precedes_asym : (x y : A) → precedes y x ≡ true → precedes x y ≡ false
  precedes_asym x y h = ground arith

  precedes_trans : (x y z : A) → precedes y x ≡ false → precedes z y ≡ false → precedes z x ≡ false
  precedes_trans x y z h k = ground arith

  insert_sorted-IsSorted : (x : A) (ys : List A) → IsSorted ys → IsSorted (insert_sorted x ys)
  insert_sorted-IsSorted x [] s = (tt, tt)
  insert_sorted-IsSorted x (y ∷ ys) s = elim (Bool-cases (precedes y x)) [
    | inl h ↦ rw h (
      All-insert_sorted (λ z. precedes z y ≡ false) x ys (precedes_asym x y h) s.0,
      insert_sorted-IsSorted x ys s.1,
    )
    | inr h ↦ rw h ((h, All-map _ _ ys (λ z. precedes_trans x y z h) s.0), s)
  ]

  pub sorted-IsSorted : (xs : List A) → IsSorted (sorted xs)
  unfolding sorted
  sorted-IsSorted [] = tt
  sorted-IsSorted (x ∷ xs) = insert_sorted-IsSorted x (sorted xs) (sorted-IsSorted xs)

  insert_sorted_stable :
      (k : ℕ) (x : A) (ys : List A)
      → filter (λ a. nat_eq (key a) k) (insert_sorted x ys)
        ≡ filter (λ a. nat_eq (key a) k) (x ∷ ys)
  unfolding filter
  insert_sorted_stable k x [] = refl
  insert_sorted_stable k x (y ∷ ys) = ground (arith, insert_sorted_stable k x ys)

  -- Items of one key keep their order.
  pub sorted_stable :
      (k : ℕ) (xs : List A)
      → filter (λ a. nat_eq (key a) k) (sorted xs) ≡ filter (λ a. nat_eq (key a) k) xs
  unfolding sorted filter
  sorted_stable k [] = refl
  sorted_stable k (x ∷ xs) =
      ground (arith, insert_sorted_stable k x (sorted xs), sorted_stable k xs)
