-- ===== src/Domain/IdempotencyPolicy/Search.antt =====
-- Where `find` finds a text.
use marketplace_pipeline.Base.{
  ℕ, ◌+◌, ◌≡◌, refl, true, false, ◌&&◌, some, [], ◌∷◌, ◌++◌, Text, ℕ-Eq, contains, starts_with,
  find, includes, length, rstrip, is_space, if◌then◌else◌, is_empty, arith,
}

-- A text without the character `sep` is a prefix of `a ++ sep ∷ rest` only inside `a`.
starts_with-append :
    (p a : Text) (sep : ℕ) (rest : Text)
    → contains sep p ≡ false
    → starts_with p (a ++ sep ∷ rest) ≡ starts_with p a
unfolding starts_with contains
starts_with-append [] a sep rest h = refl
starts_with-append (c ∷ p) [] sep rest h = ground arith
starts_with-append (c ∷ p) (d ∷ a) sep rest h = ground (arith, starts_with-append p a sep rest)

-- The search goes on behind `sep`, where `a` holds no occurrence.
pub find-append :
    (c : ℕ) (p a : Text) (sep : ℕ) (rest : Text) (i : ℕ)
    → contains sep (c ∷ p) ≡ false
    → includes (c ∷ p) a ≡ false
    → find (c ∷ p) rest ≡ some i
    → find (c ∷ p) (a ++ sep ∷ rest) ≡ some (length a + 1 + i)
unfolding includes find starts_with contains
find-append c p [] sep rest i h out found = ground arith
find-append c p (d ∷ a) sep rest i h out found =
    ground (arith, starts_with-append (c ∷ p) (d ∷ a) sep rest h, find-append c p a sep rest i h)

starts_with_self : (p rest : Text) → starts_with p (p ++ rest) ≡ true
unfolding starts_with
starts_with_self [] rest = refl
starts_with_self (c ∷ p) rest = ground (arith, starts_with_self p rest)

pub find_self : (c : ℕ) (p rest : Text) → find (c ∷ p) ((c ∷ p) ++ rest) ≡ some 0
unfolding find
find_self c p rest = ground (arith, starts_with_self (c ∷ p) rest)

-- The first occurrence of a character.
pub find_char :
    (c : ℕ) (a rest : Text) → contains c a ≡ false → find (c ∷ []) (a ++ c ∷ rest) ≡ some (length a)
unfolding find starts_with contains
find_char c [] rest h = ground arith
find_char c (d ∷ a) rest h = ground (arith, find_char c a rest)

starts_with_mono : (p a w : Text) → starts_with p a ≡ true → starts_with p (a ++ w) ≡ true
unfolding starts_with
starts_with_mono [] a w h = refl
starts_with_mono (c ∷ p) [] w h = ground arith
starts_with_mono (c ∷ p) (d ∷ a) w h = ground (arith, starts_with_mono p a w)

-- What stands in a text stands in a longer one.
includes_mono : (p a w : Text) → includes p a ≡ true → includes p (a ++ w) ≡ true
unfolding includes find
includes_mono p [] [] h = h
includes_mono p [] (c ∷ w) h = ground (arith, starts_with_mono p [] (c ∷ w))
includes_mono p (d ∷ a) w h = ground (arith, starts_with_mono p (d ∷ a) w, includes_mono p a w)

-- The blanks that `rstrip` takes off.
trailing : Text → Text
trailing [] = []
trailing (c ∷ s) =
    let rest = trailing s in if is_empty (rstrip s) && is_space c then c ∷ s else rest

rstrip-append-trailing : (s : Text) → rstrip s ++ trailing s ≡ s
unfolding trailing rstrip
rstrip-append-trailing [] = refl
rstrip-append-trailing (c ∷ s) = ground (arith, rstrip-append-trailing s)

pub includes-rstrip : (p s : Text) → includes p s ≡ false → includes p (rstrip s) ≡ false
includes-rstrip p s h =
    ground (arith, includes_mono p (rstrip s) (trailing s), rstrip-append-trailing s)

starts_with-shorter : (p q t : Text) → starts_with (p ++ q) t ≡ true → starts_with p t ≡ true
unfolding starts_with
starts_with-shorter [] q t h = refl
starts_with-shorter (c ∷ p) q [] h = h
starts_with-shorter (c ∷ p) q (d ∷ t) h = ground (arith, starts_with-shorter p q t)

-- A text that holds no `p` holds nothing that begins with `p`.
pub includes-shorter : (p q t : Text) → includes p t ≡ false → includes (p ++ q) t ≡ false
unfolding includes find
includes-shorter p q [] h = ground (arith, starts_with-shorter p q [])
includes-shorter p q (d ∷ t) h =
    ground (arith, starts_with-shorter p q (d ∷ t), includes-shorter p q t)
