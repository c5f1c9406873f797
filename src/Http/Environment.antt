-- ===== src/Http/Environment.antt =====
-- infrastructure/http/ozon_http.py: the settings and the state of the HTTP client, and what it calls:
-- `httpx`, `random` and `time` are calls that change a state `W`, over clients `C` and payloads `P`.
-- A client's `get` merges the cookies of the response into the client. Times are in ticks.
use marketplace_pipeline.Base.{
  ℕ, Bool, true, false, Option, none, some, List, Text, Text-Eq, Eq, Dict, Result, Exec, ◌≡◌, ◌↔◌,
  refl, text_eq, text_eq_iff, arith,
}
use marketplace_pipeline.Http.Headers.{BrowserProfile, SessionFingerprint}

abbrev proxy_eq : Option Text → Option Text → Bool
proxy_eq none none = true
proxy_eq (some a) (some b) = text_eq a b
proxy_eq _ _ = false

pub proxy_eq_iff : (p q : Option Text) → (proxy_eq p q ≡ true) ↔ (p ≡ q)
proxy_eq_iff none none = (λ h. refl, λ h. refl)
proxy_eq_iff none (some b) = ground arith
proxy_eq_iff (some a) none = ground arith
proxy_eq_iff (some a) (some b) = ground (arith, text_eq_iff a b)

-- A proxy, or none for a direct connection, as the key of a dictionary.
instance abbrev pub Proxy-Eq : Eq (Option Text)
Proxy-Eq = record { beq = proxy_eq; beq_iff = proxy_eq_iff }

pub record Response (P : Type 0) : Type 0 where
  pub status_code : ℕ
  pub text : Text
  pub json : Result P

pub record Environment (W C P : Type 0) : Type 0 where
  pub open_client : Option Text → Dict Text Text → W → C × W
  pub close_client : C → W → W
  pub get : C → Text → Option Text → Dict Text Text → Exec W (Response P)
  pub raise_for_status : Response P → Result (Unit {0})
  pub has_widget_states : P → Bool
  pub random_profile : W → BrowserProfile × W
  pub random_viewport : W → (ℕ × ℕ) × W
  pub uniform : ℕ → ℕ → W → ℕ × W
  pub monotonic : W → ℕ × W
  pub sleep : ℕ → W → W

pub record HttpSettings : Type 0 where
  pub api_base_url : Text
  -- With one slash at its end.
  pub category_path : Text
  -- The bound of 60 seconds on a delay, in ticks.
  pub longest_delay : ℕ
  pub max_retries : ℕ
  pub base_delay : ℕ
  pub request_delay : ℕ
  pub request_delay_min : Option ℕ
  pub request_delay_max : Option ℕ
  pub warmup_session : Bool
  pub rotate_user_agents : Bool
  pub first_profile : BrowserProfile
  -- What `parse_proxy_list` and `parse_cookie_header` give.
  pub proxies : List Text
  pub static_cookies : Dict Text Text

pub record HttpState (W C : Type 0) : Type 0 where
  pub proxy_index : ℕ
  pub last_request_at : ℕ
  pub clients : Dict (Option Text) C
  pub warmed_proxies : List (Option Text)
  pub fingerprints : Dict (Option Text) SessionFingerprint
  pub world : W
