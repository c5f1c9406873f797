-- ===== src/Api/RateLimit/Requests.antt =====
-- Sequences of requests to the limiter of interfaces/api/middleware/rate_limit.py, and what one of
-- them does to the time stamps of a client.
use marketplace_pipeline.Base.{
  ℕ, ◌+◌, ◌≤◌, ◌<◌, ◌≡◌, refl, Bool, true, false, ◌&&◌, List, [], ◌∷◌, ◌++◌, Text, Text-Eq,
  text_eq_iff, ◌==◌, lookup-insert, filter, filter-append, length, length-append, leb,
  if◌then◌else◌, arith,
}
use marketplace_pipeline.Api.RateLimit.{Hits, hits_of, is_recent, allow}

filter-filter :
    (p q : ℕ → Bool) (xs : List ℕ)
    → ((x : ℕ) → p x ≡ true → q x ≡ true)
    → filter p (filter q xs) ≡ filter p xs
unfolding filter
filter-filter p q [] h = refl
filter-filter p q (x ∷ xs) h = ground (arith, h x, filter-filter p q xs h)

length-filter_mono :
    (p q : ℕ → Bool) (xs : List ℕ)
    → ((x : ℕ) → p x ≡ true → q x ≡ true)
    → length (filter p xs) ≤ length (filter q xs)
unfolding filter
length-filter_mono p q [] h = omega arith
length-filter_mono p q (x ∷ xs) h = ground (arith, h x, length-filter_mono p q xs h)

-- The state of the limiter, and the times at which requests of one client went on.
pub record Served : Type 0 where
  pub hits : Hits
  pub admitted : List ℕ

-- The time stamp lies in the window that begins at `start`, both ends included.
abbrev pub in_window : ℕ → ℕ → ℕ → Bool
in_window minute start ts = leb start ts && leb ts (start + minute)

-- The times of the requests never go back, from `before` on.
unfoldable pub InOrder : ℕ → List (ℕ × Text) → Type 0
InOrder before [] = Unit
InOrder before ((now, client) ∷ requests) = (before ≤ now) × InOrder now requests

abbrev pub no_hits : Served
no_hits = record { hits = []; admitted = [] }

module _ (limit minute : ℕ) (ip : Text) where
  unfoldable pub serve_one : ℕ → Text → Served → Served
  serve_one now client s =
      let (goes_on, hits) = allow limit minute client now s.hits in
      record {
        hits = hits;
        admitted = if goes_on && client == ip then s.admitted ++ now ∷ [] else s.admitted;
      }

  -- The requests in the order in which they are served.
  unfoldable pub serve : List (ℕ × Text) → Served → Served
  unfolding serve_one
  serve [] s = s
  serve ((now, client) ∷ requests) s = serve requests (serve_one now client s)

  pub other_client :
      (now : ℕ) (client : Text) (s : Served)
      → (client == ip) ≡ false
      → ((serve_one now client s).admitted ≡ s.admitted)
        × (hits_of ip (serve_one now client s).hits ≡ hits_of ip s.hits)
  unfolding serve_one allow hits_of
  other_client now client s h = (
    ground (arith, h),
    ground (
      arith,
      h,
      lookup-insert client ip (filter (is_recent minute now) (hits_of client s.hits)) s.hits,
      lookup-insert client ip (filter (is_recent minute now) (hits_of client s.hits) ++ now ∷ [])
          s.hits,
    ),
  )

  -- The limiter's own client, with what is recent of its time stamps.
  unfoldable pub recent_of : ℕ → Served → List ℕ
  recent_of now s = filter (is_recent minute now) (hits_of ip s.hits)

  pub same_client_rejected :
      (now : ℕ) (s : Served)
      → 0 < limit
      → leb limit (length (recent_of now s)) ≡ true
      → ((serve_one now ip s).admitted ≡ s.admitted)
        × (hits_of ip (serve_one now ip s).hits ≡ recent_of now s)
  unfolding serve_one allow hits_of recent_of
  same_client_rejected now s pos full = (
    ground (arith, full),
    ground (arith, full, text_eq_iff ip ip, lookup-insert ip ip (recent_of now s) s.hits),
  )

  pub same_client_admitted :
      (now : ℕ) (s : Served)
      → 0 < limit
      → leb limit (length (recent_of now s)) ≡ false
      → ((serve_one now ip s).admitted ≡ s.admitted ++ now ∷ [])
        × (hits_of ip (serve_one now ip s).hits ≡ recent_of now s ++ now ∷ [])
  unfolding serve_one allow hits_of recent_of
  same_client_admitted now s pos room = (
    ground (arith, room, text_eq_iff ip ip),
    ground
        (arith, room, text_eq_iff ip ip, lookup-insert ip ip (recent_of now s ++ now ∷ []) s.hits),
  )

  pub still_recent :
      (now later : ℕ) (hits : List ℕ)
      → now ≤ later
      → filter (is_recent minute later) (filter (is_recent minute now) hits)
        ≡ filter (is_recent minute later) hits
  still_recent now later hits le =
      filter-filter (is_recent minute later) (is_recent minute now) hits (λ ts h. ground arith)

  pub window_is_recent :
      (start now : ℕ) (hits : List ℕ)
      → now ≤ start + minute
      → length (filter (in_window minute start) hits) ≤ length (filter (is_recent minute now) hits)
  window_is_recent start now hits le =
      length-filter_mono (in_window minute start) (is_recent minute now) hits (λ ts h. ground arith)

  pub length-snoc :
      (p : ℕ → Bool) (hits : List ℕ) (now : ℕ)
      → length (filter p (hits ++ now ∷ []))
        ≡ (if p now then length (filter p hits) + 1 else length (filter p hits))
  unfolding filter
  length-snoc p hits now =
      ground (
        arith,
        filter-append p hits (now ∷ []),
        length-append (filter p hits) (filter p (now ∷ [])),
      )
