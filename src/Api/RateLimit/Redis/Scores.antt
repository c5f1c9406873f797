-- ===== src/Api/RateLimit/Redis/Scores.antt =====
-- The members of a key of infrastructure/rate_limit/redis_sliding_window.py by their scores.
use marketplace_pipeline.Base.{
  ℕ, ◌+◌, ◌-◌, ◌<◌, ◌≤◌, ◌≡◌, refl, Bool-cases, inl, inr, none, List, [], ◌∷◌, ◌++◌, map, Text,
  Text-Eq, text_eq_iff, ◌==◌, Dict, lookup, insert, erase, filter, length, arith,
}
use marketplace_pipeline.Api.RateLimit.{is_recent}
use marketplace_pipeline.Api.RateLimit.Redis.{outside}

abbrev pub scores : Dict Text ℕ → List ℕ
scores members = map (λ (entry : Text × ℕ). entry.1) members

-- A new member goes to the end, and is taken away again.
pub scores-insert :
    (m : Text) (now : ℕ) (members : Dict Text ℕ)
    → lookup m members ≡ none
    → (scores (insert m now members) ≡ scores members ++ now ∷ [])
      × (length (insert m now members) ≡ length members + 1)
      × (erase m (insert m now members) ≡ members)
unfolding lookup insert erase
scores-insert m now [] h = (refl, refl, ground (arith, text_eq_iff m m))
scores-insert m now ((j, s) ∷ members) h = elim (Bool-cases (j == m)) [
  | inl same ↦ absurd (ground (arith, same))
  | inr new ↦
      let (a, b, c) = scores-insert m now members (ground (arith, new, h)) in
      (ground (arith, new, a), ground (arith, new, b), ground (arith, new, c))
]

pub scores-filter :
    (minute now : ℕ) (members : Dict Text ℕ)
    → 0 < minute
    → minute ≤ now
    → scores (filter (outside 0 (now - minute)) members)
      ≡ filter (is_recent (minute - 1) now) (scores members)
unfolding filter
scores-filter minute now [] pos h = refl
scores-filter minute now ((m, ts) ∷ members) pos h =
    ground (arith, scores-filter minute now members pos h)

pub recent_all :
    (minute now : ℕ) (hits : List ℕ)
    → now < minute
    → filter (is_recent (minute - 1) now) hits ≡ hits
unfolding filter
recent_all minute now [] h = refl
recent_all minute now (ts ∷ hits) h = ground (arith, recent_all minute now hits h)
