-- ===== src/Base/Lists.antt =====
-- Lists measured by native numbers, under the library's names, with a test in place of a decision.
use Prim.Native.Nat.{ℕ, zero, suc, ◌+◌, ◌-◌, ◌≤◌, ◌<◌, min}
use mathlib.Core.Path.{◌≡◌, refl, sym, ap, ◌∙◌}
use mathlib.Core.Bool.{Bool, false, ◌||◌}
use mathlib.Core.List.{List, [], ◌∷◌, ◌++◌, map}
use mathlib.Core.Option.{Option, none, some}
use native.Mathlib.Omega.{arith}
use marketplace_pipeline.Base.Tests.{if◌then◌else◌, Eq, ◌==◌}

module _ {ℓ} {A : Type ℓ} where
  abbrev pub length : List A → ℕ
  length [] = 0
  length (x ∷ xs) = suc (length xs)

  -- `l[:n]`
  abbrev pub take : ℕ → List A → List A
  take zero xs = []
  take (suc n) [] = []
  take (suc n) (x ∷ xs) = x ∷ take n xs

  -- `l[n:]`
  abbrev pub drop : ℕ → List A → List A
  drop zero xs = xs
  drop (suc n) [] = []
  drop (suc n) (x ∷ xs) = drop n xs

  abbrev pub get_elem? : List A → ℕ → Option A
  get_elem? [] i = none
  get_elem? (x ∷ xs) zero = some x
  get_elem? (x ∷ xs) (suc i) = get_elem? xs i

  -- `[x for x in l if p(x)]`
  unfoldable pub filter : (A → Bool) → List A → List A
  filter p [] = []
  filter p (x ∷ xs) = let rest = filter p xs in if p x then x ∷ rest else rest

  -- `any(p(x) for x in l)`
  abbrev pub any : (A → Bool) → List A → Bool
  any p [] = false
  any p (x ∷ xs) = p x || any p xs

  -- A predicate of every item.
  abbrev pub All {κ} : (A → Type κ) → List A → Type κ
  All P [] = Unit
  All P (x ∷ xs) = P x × All P xs

module _ {ℓ} {A : Type ℓ} where
  pub length-append : (xs ys : List A) → length (xs ++ ys) ≡ length xs + length ys
  length-append [] ys = omega arith
  length-append (x ∷ xs) ys = omega (arith, length-append xs ys)

  pub take-append-drop : (n : ℕ) (xs : List A) → take n xs ++ drop n xs ≡ xs
  take-append-drop zero xs = refl
  take-append-drop (suc n) [] = refl
  take-append-drop (suc n) (x ∷ xs) = ap (◌∷◌ x) (take-append-drop n xs)

  pub length-take : (n : ℕ) (xs : List A) → length (take n xs) ≡ min n (length xs)
  length-take zero xs = omega arith
  length-take (suc n) [] = omega arith
  length-take (suc n) (x ∷ xs) = omega (arith, length-take n xs)

  pub take_all : (n : ℕ) (xs : List A) → length xs ≤ n → take n xs ≡ xs
  take_all zero [] h = refl
  take_all zero (x ∷ xs) h = absurd (omega arith)
  take_all (suc n) [] h = refl
  take_all (suc n) (x ∷ xs) h = ap (◌∷◌ x) (take_all n xs (omega arith))

  pub take_nil : (n : ℕ) → take {A = A} n [] ≡ []
  take_nil zero = refl
  take_nil (suc n) = refl

  pub take_cong : (m n : ℕ) (xs : List A) → m ≡ n → take m xs ≡ take n xs
  take_cong m n xs h = ap (λ k. take k xs) h

  pub take_cons : (n : ℕ) (x : A) (xs : List A) → 0 < n → take n (x ∷ xs) ≡ x ∷ take (n - 1) xs
  take_cons zero x xs h = absurd (omega arith)
  take_cons (suc n) x xs h = ap (◌∷◌ x) (take_cong n (suc n - 1) xs (omega arith))

  pub take_none : (n : ℕ) (xs : List A) → n ≡ 0 → take n xs ≡ []
  take_none n xs h = take_cong n 0 xs h

  pub take-append :
      (k : ℕ) (xs ys : List A) → take k (xs ++ ys) ≡ take k xs ++ take (k - length xs) ys
  take-append k [] ys = rw take_nil (take_cong k (k - 0) ys (omega arith))
  take-append zero (x ∷ xs) ys = sym (take_none (0 - suc (length xs)) ys (omega arith))
  take-append (suc k) (x ∷ xs) ys = ap (◌∷◌ x) (
      take-append k xs ys
      ∙ ap (λ t. take k xs ++ t)
          (take_cong (k - length xs) (suc k - suc (length xs)) ys (omega arith)))

  pub length-filter-le : (p : A → Bool) (xs : List A) → length (filter p xs) ≤ length xs
  unfolding filter
  length-filter-le p [] = omega arith
  length-filter-le p (x ∷ xs) = ground (arith, length-filter-le p xs)

  pub filter-append :
      (p : A → Bool) (xs ys : List A) → filter p (xs ++ ys) ≡ filter p xs ++ filter p ys
  unfolding filter
  filter-append p [] ys = refl
  filter-append p (x ∷ xs) ys = ground (arith, filter-append p xs ys)

  pub All-append {κ} : (P : A → Type κ) (xs ys : List A) → All P xs → All P ys → All P (xs ++ ys)
  All-append P [] ys hx hy = hy
  All-append P (x ∷ xs) ys hx hy = (hx.0, All-append P xs ys hx.1 hy)

  pub All-map {κ ι} :
      (P : A → Type κ) (Q : A → Type ι) (xs : List A) → ((x : A) → P x → Q x) → All P xs → All Q xs
  All-map P Q [] f h = tt
  All-map P Q (x ∷ xs) f h = (f x h.0, All-map P Q xs f h.1)

module _ {ℓ κ} {A : Type ℓ} {B : Type κ} where
  pub length-map : (xs : List A) (f : A → B) → length (map f xs) ≡ length xs
  length-map [] f = refl
  length-map (x ∷ xs) f = ap suc (length-map xs f)

module _ {ℓ} {A : Type ℓ} ⦃e : Eq A⦄ where
  -- `a in xs`
  unfoldable pub contains : A → List A → Bool
  contains a [] = false
  contains a (x ∷ xs) = x == a || contains a xs

  -- No value stands twice.
  abbrev pub Distinct : List A → Type 0
  Distinct [] = Unit
  Distinct (x ∷ xs) = (contains x xs ≡ false) × Distinct xs

module _ {ℓ} {A : Type ℓ} ⦃e : Eq A⦄ where
  pub contains-append :
      (a : A) (xs ys : List A) → contains a (xs ++ ys) ≡ (contains a xs || contains a ys)
  unfolding contains
  contains-append a [] ys = refl
  contains-append a (x ∷ xs) ys = ground (arith, contains-append a xs ys)

  -- A new value at the end.
  pub Distinct-append :
      (xs : List A) (a : A) → Distinct xs → contains a xs ≡ false → Distinct (xs ++ a ∷ [])
  unfolding contains
  Distinct-append [] a d h = (refl, tt)
  Distinct-append (x ∷ xs) a d h = (
    ground (arith, contains-append x xs (a ∷ []), e.beq_iff a x, e.beq_iff x a, d.0),
    Distinct-append xs a d.1 (ground arith),
  )
