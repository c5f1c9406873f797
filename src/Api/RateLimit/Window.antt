-- ===== src/Api/RateLimit/Window.antt =====
-- How many requests of one client interfaces/api/middleware/rate_limit.py lets through.
use marketplace_pipeline.Base.{
  ℕ, ◌≤◌, ◌<◌, ◌≡◌, refl, false, List, [], ◌∷◌, ◌++◌, Text, Text-Eq, text_eq_iff, ◌==◌, lookup,
  filter, filter-append, length, leb, Bool-cases, sym, subst, inl, inr, arith,
}
use marketplace_pipeline.Api.RateLimit.{hits_of, is_recent}
use marketplace_pipeline.Api.RateLimit.Requests.{
  Served, in_window, InOrder, no_hits, serve_one, serve, recent_of, other_client,
  same_client_rejected, same_client_admitted, still_recent, window_is_recent, length-snoc,
}

module _ (limit minute : ℕ) (ip : Text) where
  record IsLimited (now : ℕ) (s : Served) : Type 0 where
    windows : (start : ℕ) → length (filter (in_window minute start) s.admitted) ≤ limit
    kept :
        (later : ℕ)
        → now ≤ later
        → filter (is_recent minute later) s.admitted
          ≡ filter (is_recent minute later) (hits_of ip s.hits)

  rejected-IsLimited :
      (before now : ℕ) (s t : Served)
      → before ≤ now
      → IsLimited before s
      → t.admitted ≡ s.admitted
      → hits_of ip t.hits ≡ recent_of limit minute ip now s
      → IsLimited now t
  unfolding recent_of
  rejected-IsLimited before now s t le inv same_admitted same_hits = record {
    windows = λ start. ground (arith, inv.windows start, same_admitted);
    kept = λ later next. ground (
      arith,
      inv.kept later (omega arith),
      still_recent limit minute ip now later (hits_of ip s.hits) next,
      same_admitted,
      same_hits,
    );
  }

  admitted-IsLimited :
      (before now : ℕ) (s t : Served)
      → before ≤ now
      → IsLimited before s
      → leb limit (length (recent_of limit minute ip now s)) ≡ false
      → t.admitted ≡ s.admitted ++ now ∷ []
      → hits_of ip t.hits ≡ recent_of limit minute ip now s ++ now ∷ []
      → IsLimited now t
  unfolding recent_of
  admitted-IsLimited before now s t le inv room more_admitted more_hits = record {
    windows = λ start. ground (
      arith,
      inv.windows start,
      inv.kept now le,
      window_is_recent limit minute ip start now s.admitted,
      length-snoc limit minute ip (in_window minute start) s.admitted now,
      more_admitted,
    );
    kept = λ later next. ground (
      arith,
      inv.kept later (omega arith),
      still_recent limit minute ip now later (hits_of ip s.hits) next,
      filter-append (is_recent minute later) s.admitted (now ∷ []),
      filter-append (is_recent minute later) (recent_of limit minute ip now s) (now ∷ []),
      more_admitted,
      more_hits,
    );
  }

  other-IsLimited :
      (before now : ℕ) (s t : Served)
      → before ≤ now
      → IsLimited before s
      → t.admitted ≡ s.admitted
      → hits_of ip t.hits ≡ hits_of ip s.hits
      → IsLimited now t
  other-IsLimited before now s t le inv same_admitted same_hits = record {
    windows = λ start. ground (arith, inv.windows start, same_admitted);
    kept = λ later next. ground (arith, inv.kept later (omega arith), same_admitted, same_hits);
  }

  own-IsLimited :
      (before now : ℕ) (s : Served)
      → 0 < limit
      → before ≤ now
      → IsLimited before s
      → IsLimited now (serve_one limit minute ip now ip s)
  own-IsLimited before now s pos le inv =
      elim (Bool-cases (leb limit (length (recent_of limit minute ip now s)))) [
        | inl full ↦
            let same = same_client_rejected limit minute ip now s pos full in
            rejected-IsLimited before now s (serve_one limit minute ip now ip s) le inv same.0
              same.1
        | inr room ↦
            let more = same_client_admitted limit minute ip now s pos room in
            admitted-IsLimited before now s (serve_one limit minute ip now ip s) le inv room more.0
              more.1
      ]

  serve_one-IsLimited :
      (before now : ℕ) (client : Text) (s : Served)
      → 0 < limit
      → before ≤ now
      → IsLimited before s
      → IsLimited now (serve_one limit minute ip now client s)
  serve_one-IsLimited before now client s pos le inv = elim (Bool-cases (client == ip)) [
    | inl same ↦
        subst (λ c. IsLimited now (serve_one limit minute ip now c s))
          (sym ((text_eq_iff client ip).0 same)) (own-IsLimited before now s pos le inv)
    | inr different ↦
        let rest = other_client limit minute ip now client s different in
        other-IsLimited before now s (serve_one limit minute ip now client s) le inv rest.0 rest.1
  ]

  serve-IsLimited :
      (before : ℕ) (requests : List (ℕ × Text)) (s : Served)
      → 0 < limit
      → InOrder before requests
      → IsLimited before s
      → (last : ℕ) × IsLimited last (serve limit minute ip requests s)
  unfolding serve InOrder
  serve-IsLimited before [] s pos ordered inv = (before, inv)
  serve-IsLimited before ((now, client) ∷ requests) s pos (le, ordered) inv =
      serve-IsLimited now requests (serve_one limit minute ip now client s) pos ordered
        (serve_one-IsLimited before now client s pos le inv)

-- With a positive limit and requests at times that never go back, whatever clients they come from
-- and in whatever order, a limiter that starts with no hits lets through at most `limit` requests
-- of a client `ip` with a time in any window from `start` to `start + minute`, both ends included.
pub serve_limited :
    (limit minute : ℕ) (ip : Text) (requests : List (ℕ × Text)) (start : ℕ)
    → 0 < limit
    → InOrder 0 requests
    → length (filter (in_window minute start) (serve limit minute ip requests no_hits).admitted)
      ≤ limit
unfolding hits_of filter lookup
serve_limited limit minute ip requests start pos ordered =
    (serve-IsLimited limit minute ip 0 requests no_hits pos ordered
        (record { windows = λ from. omega arith; kept = λ later le. refl })).1.windows
      start
