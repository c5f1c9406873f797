-- ===== src/Api/RateLimit.antt =====
-- interfaces/api/middleware/rate_limit.py: the limiter in memory. `now` is what `time.monotonic()`
-- returns, in ticks, and `minute` the number of ticks of the window. A negative limit is the limit 0.
pub mod Requests
pub mod Window
pub mod Redis
pub mod Replicas
use marketplace_pipeline.Base.{
  ℕ, ◌+◌, Bool, true, false, Option, none, some, List, [], ◌∷◌, ◌++◌, Text, Text-Eq, Dict, lookup,
  insert, codes, split, strip, is_empty, filter, length, leb, nat_eq, if◌then◌else◌,
}
use marketplace_pipeline.Api.PublicPaths.{is_public_path}

-- What the middleware reads of a request.
pub record ClientInfo : Type 0 where
  pub path : Text
  pub forwarded_for : Option Text
  pub host : Option Text

abbrev first_part : List Text → Text
first_part [] = []
first_part (part ∷ parts) = part

abbrev host_or_unknown : Option Text → Text
host_or_unknown none = codes "unknown"
host_or_unknown (some host) = host

abbrev forwarded_or_host : Option Text → Option Text → Text
forwarded_or_host none host = host_or_unknown host
forwarded_or_host (some forwarded) host =
    if is_empty forwarded then host_or_unknown host else strip (first_part (split b',' forwarded))

-- `_client_ip`
unfoldable pub client_ip : ClientInfo → Text
client_ip request = forwarded_or_host request.forwarded_for request.host

abbrev pub Hits : Type 0
Hits = Dict Text (List ℕ)

abbrev or_empty : Option (List ℕ) → List ℕ
or_empty none = []
or_empty (some hits) = hits

-- `self._hits[client_ip]` of the `defaultdict`
unfoldable pub hits_of : Text → Hits → List ℕ
hits_of ip hits = or_empty (lookup ip hits)

-- `ts >= now - 60.0`
abbrev pub is_recent : ℕ → ℕ → ℕ → Bool
is_recent minute now ts = leb now (ts + minute)

module _ (limit minute : ℕ) where
  -- `_allow`
  unfoldable pub allow : Text → ℕ → Hits → Bool × Hits
  unfolding hits_of
  allow ip now hits =
      let recent = filter (is_recent minute now) (hits_of ip hits) in
      if nat_eq limit 0
      then (true, hits)
      else if leb limit (length recent)
      then (false, insert ip recent hits)
      else (true, insert ip (recent ++ now ∷ []) hits)

  -- `dispatch`: whether the request goes on to the next layer.
  unfoldable pub dispatch : ClientInfo → ℕ → Hits → Bool × Hits
  unfolding client_ip allow
  dispatch request now hits =
      if is_public_path request.path then (true, hits) else allow (client_ip request) now hits
