-- ===== src/Http/OzonClient/Turns.antt =====
-- The order in which infrastructure/http/ozon_http.py takes its proxies: round and round.
use native.Mathlib.Nat.{mod-eq_of_lt}
use marketplace_pipeline.Base.{
  ℕ, zero, suc, ◌<◌, ◌+◌, ◌*◌, ◌%◌, ◌≡◌, refl, sym, ap, ◌∙◌, Option, none, some, is_empty, List, [],
  ◌∷◌, ◌++◌, map, Text, ◌==◌, length, get_elem?, if◌then◌else◌, arith, append_assoc, length-append,
}
use marketplace_pipeline.Http.Environment.{Proxy-Eq}

-- How often a proxy stands in a list.
abbrev pub times : Option Text → List (Option Text) → ℕ
times p [] = 0
times p (q ∷ qs) = let rest = times p qs in if q == p then rest + 1 else rest

times-append :
    (p : Option Text) (qs rs : List (Option Text)) → times p (qs ++ rs) ≡ times p qs + times p rs
times-append p [] rs = ground arith
times-append p (q ∷ qs) rs = ground (arith, times-append p qs rs)

get_elem?-append :
    (front back : List Text) (b : Text) → get_elem? (front ++ b ∷ back) (length front) ≡ some b
get_elem?-append [] back b = refl
get_elem?-append (f ∷ front) back b = get_elem?-append front back b

module _ (proxies : List Text) where
  -- So many proxies in turn, from a position of the rotation on.
  abbrev pub in_turn : ℕ → ℕ → List (Option Text)
  in_turn zero i = []
  in_turn (suc n) i = get_elem? proxies (i % length proxies) ∷ in_turn n (suc i)

  in_turn-append :
      (a b n i j : ℕ) → n ≡ a + b → j ≡ a + i → in_turn n i ≡ in_turn a i ++ in_turn b j
  in_turn-append zero b n i j e f =
      ap (λ k. in_turn k i) (let same : n ≡ b = omega arith in same)
      ∙ ap (λ k. in_turn b k) (let same : i ≡ j = omega arith in same)
  in_turn-append (suc a) b zero i j e f = absurd (omega arith)
  in_turn-append (suc a) b (suc n) i j e f =
      ap (◌∷◌ (get_elem? proxies (i % length proxies)))
        (in_turn-append a b n (suc i) j (omega arith) (omega arith))

  in_turn-suffix :
      (front back : List Text) (i : ℕ)
      → proxies ≡ front ++ back
      → i ≡ length front
      → in_turn (length back) i ≡ map some back
  in_turn-suffix front [] i e f = refl
  in_turn-suffix front (b ∷ back) i e f =
      let small : i < length proxies =
        omega (arith, f, ap length e, length-append front (b ∷ back)) in
      let here : get_elem? proxies (i % length proxies) ≡ some b =
        ap (get_elem? proxies) (mod-eq_of_lt small)
        ∙ ap (λ xs. get_elem? xs i) e
        ∙ ap (get_elem? (front ++ b ∷ back)) f
        ∙ get_elem?-append front back b in
      let rest =
        in_turn-suffix (front ++ b ∷ []) back (suc i) (e ∙ sym (append_assoc front (b ∷ []) back))
          (omega (arith, f, length-append front (b ∷ []))) in
      ground (arith, here, rest)

  position_again : (i : ℕ) → (length proxies + i) % length proxies ≡ i % length proxies
  position_again i = grind arith

  -- A round has every proxy as often as the list has it, wherever it begins.
  times-round :
      (p : Option Text) (i : ℕ) → times p (in_turn (length proxies) i) ≡ times p (map some proxies)
  times-round p zero = ap (times p) (in_turn-suffix [] proxies 0 refl refl)
  times-round p (suc i) =
      let n = length proxies in
      let first = get_elem? proxies (i % n) in
      let last : in_turn 1 (n + i) ≡ first ∷ [] =
        ap (λ k. get_elem? proxies k ∷ []) (position_again i) in
      let whole = ap (times p) (in_turn-append n 1 (suc n) i (n + i) (omega arith) refl) in
      ground (
        arith,
        whole,
        last,
        times-append p (in_turn n i) (first ∷ []),
        times-append p (first ∷ []) (in_turn n (suc i)),
        times-round p i,
      )

  pub times-rounds :
      (p : Option Text) (rounds n i : ℕ)
      → n ≡ rounds * length proxies
      → times p (in_turn n i) ≡ rounds * times p (map some proxies)
  times-rounds p zero n i e =
      ap (λ k. times p (in_turn k i)) (let none_left : n ≡ 0 = omega arith in none_left)
      ∙ ground arith
  times-rounds p (suc rounds) n i e = ground (
    arith,
    in_turn-append (length proxies) (rounds * length proxies) n i (length proxies + i),
    times-append p (in_turn (length proxies) i)
        (in_turn (rounds * length proxies) (length proxies + i)),
    times-round p i,
    times-rounds p rounds (rounds * length proxies) (length proxies + i) refl,
  )

in_turn-nil : (n i j : ℕ) → in_turn [] n i ≡ in_turn [] n j
in_turn-nil zero i j = refl
in_turn-nil (suc n) i j = ap (λ qs. none ∷ qs) (in_turn-nil n (suc i) (suc j))

-- Without a proxy the position stays where it is, which makes no difference.
pub in_turn-next :
    (proxies : List Text) (n i : ℕ)
    → in_turn proxies n (i + (if is_empty proxies then 0 else 1)) ≡ in_turn proxies n (suc i)
in_turn-next [] n i = in_turn-nil n (i + 0) (suc i)
in_turn-next (p ∷ proxies) n i =
    ap (in_turn (p ∷ proxies) n) (let next : i + 1 ≡ suc i = omega arith in next)

pub length-in_turn : (proxies : List Text) (n i : ℕ) → length (in_turn proxies n i) ≡ n
length-in_turn proxies zero i = refl
length-in_turn proxies (suc n) i = ap suc (length-in_turn proxies n (suc i))
