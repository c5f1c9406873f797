-- ===== src/Api/Auth.antt =====
-- interfaces/api/middleware/auth.py. `secrets.compare_digest` is equality of the two texts, for texts
-- of ASCII characters; for others it raises a TypeError, which is written out. The names of the
-- headers are matched whatever their case, so a request is what the two headers hold.
use marketplace_pipeline.Base.{
  Bool, true, false, not, ◌&&◌, ◌≡◌, ◌↔◌, Option, none, some, [], Text, Text-Eq, ◌==◌, codes,
  is_empty, lower, starts_with, strip, drop, any, leb, if◌then◌else◌, Result, ok, err, other,
  text_eq_iff, arith, ◌⊎◌, inl, inr, ℕ, length, ◌∷◌, ◌++◌, map, ap, refl, ◌∙◌, lower_char,
  Bool-cases, Option-cases,
}
use marketplace_pipeline.Api.PublicPaths.{is_public_path}

pub record Request : Type 0 where
  pub path : Text
  pub x_api_key : Option Text
  pub authorization : Option Text

-- What the middleware does with a request.
pub data Answer : Type 0 where
  goes_on unauthorized : Answer

-- `request.headers.get(name, "")`
abbrev pub header_or_empty : Option Text → Text
header_or_empty none = []
header_or_empty (some value) = value

-- `auth[7:].strip()` of a bearer header, else the empty text.
unfoldable pub bearer_token : Text → Text
bearer_token auth = if starts_with (codes "bearer ") (lower auth) then strip (drop 7 auth) else []

-- The key that a request provides.
unfoldable pub provided_key : Request → Text
unfolding bearer_token
provided_key request =
    let provided = header_or_empty request.x_api_key in
    if is_empty provided then bearer_token (header_or_empty request.authorization) else provided

unfoldable pub is_ascii : Text → Bool
is_ascii s = not (any (λ c. leb 128 c) s)

-- `secrets.compare_digest(a, b)`
unfoldable pub compare_digest : Text → Text → Result Bool
unfolding is_ascii
compare_digest a b =
    if is_ascii a && is_ascii b
    then ok (a == b)
    else err (other (codes "comparing strings with non-ASCII characters is not supported"))

abbrev pub answer_of : Result Bool → Result Answer
answer_of (ok true) = ok goes_on
answer_of (ok false) = ok unauthorized
answer_of (err e) = err e

-- `dispatch`
unfoldable pub authenticate : Text → Request → Result Answer
unfolding provided_key compare_digest
authenticate api_key request =
    let provided = provided_key request in
    if is_empty api_key
    then ok goes_on
    else if is_public_path request.path
    then ok goes_on
    else if is_empty provided
    then ok unauthorized
    else answer_of (compare_digest provided api_key)

-- The scheme of a bearer header, in lower case.
abbrev pub bearer : Text
bearer = codes "bearer "

-- A request provides a key by X-API-Key; only a request without that header, or with an empty one,
-- does so by an Authorization header that is the scheme, in any case, and the key, with any white
-- space around it.
abbrev pub Provides : Request → Text → Type 0
Provides request key =
    ((request.x_api_key ≡ some key) × (is_empty key ≡ false))
    ⊎ ((is_empty (header_or_empty request.x_api_key) ≡ true)
        × ((scheme : Text) × (rest : Text) × (request.authorization ≡ some (scheme ++ rest))
            × (lower scheme ≡ bearer)
            × (strip rest ≡ key)))

starts_with-append :
    (f : ℕ → ℕ) (p scheme rest : Text)
    → map f scheme ≡ p
    → (starts_with p (map f (scheme ++ rest)) ≡ true) × (drop (length p) (scheme ++ rest) ≡ rest)
unfolding starts_with
starts_with-append f p [] rest h = rw (← h) (refl, refl)
starts_with-append f p (c ∷ scheme) rest h =
    let (begins, dropped) = starts_with-append f (map f scheme) scheme rest refl in
    rw (← h) (ground (arith, begins), dropped)

starts_with-split :
    (f : ℕ → ℕ) (p t : Text)
    → starts_with p (map f t) ≡ true
    → (scheme : Text) × (t ≡ scheme ++ drop (length p) t) × (map f scheme ≡ p)
unfolding starts_with
starts_with-split f [] t h = ([], refl, refl)
starts_with-split f (c ∷ p) [] h = ground arith
starts_with-split f (c ∷ p) (d ∷ t) h =
    let (scheme, whole, same) = starts_with-split f p t (ground arith) in
    (d ∷ scheme, ap (◌∷◌ d) whole, ground (arith, same))

bearer_token-of :
    (scheme rest : Text) → lower scheme ≡ bearer → bearer_token (scheme ++ rest) ≡ strip rest
unfolding bearer_token lower
bearer_token-of scheme rest same =
    let (begins, dropped) = starts_with-append lower_char bearer scheme rest same in
    rw (begins, dropped) refl

bearer_token-nil : bearer_token [] ≡ []
unfolding bearer_token lower starts_with strip
bearer_token-nil = refl

from_bearer :
    (request : Request) (key : Text)
    → is_empty key ≡ false
    → provided_key request ≡ key
    → is_empty (header_or_empty request.x_api_key) ≡ true
    → Provides request key
unfolding provided_key bearer_token lower
from_bearer request key some_key h absent = elim (Option-cases request.authorization) [
  | inl missing ↦ absurd (ground (arith, missing, absent, bearer_token-nil))
  | inr (auth, header) ↦ elim (Bool-cases (starts_with bearer (map lower_char auth))) [
    | inl begins ↦
        let (scheme, whole, same) = starts_with-split lower_char bearer auth begins in
        inr (absent, (scheme, drop 7 auth, header ∙ ap some whole, same, ground arith))
    | inr other_scheme ↦ absurd (ground arith)
  ]
]

provided-Provides :
    (request : Request) (key : Text)
    → is_empty key ≡ false
    → provided_key request ≡ key
    → Provides request key
unfolding provided_key bearer_token lower
provided-Provides request key some_key h = elim (Option-cases request.x_api_key) [
  | inl absent ↦ from_bearer request key some_key h (ground (arith, absent))
  | inr (value, present) ↦ elim (Bool-cases (is_empty value)) [
    | inl empty ↦ from_bearer request key some_key h (ground (arith, present, empty))
    | inr full ↦ inl (ground (arith, present, full), some_key)
  ]
]

Provides-provided :
    (request : Request) (key : Text) → Provides request key → provided_key request ≡ key
unfolding provided_key
Provides-provided request key (inl (present, full)) = ground (arith, present, full)
Provides-provided request key (inr (absent, (scheme, rest, header, same, stripped))) =
    rw (absent, header) (bearer_token-of scheme rest same ∙ stripped)

-- A request goes on exactly when no key is configured, its path is public, or it provides the
-- configured key and that key has only ASCII characters. It provides a key by X-API-Key, or, without
-- that header or with an empty one, by a bearer header.
pub authenticate_iff :
    (api_key : Text) (request : Request)
    → (authenticate api_key request ≡ ok goes_on) ↔ (
        (is_empty api_key ≡ true)
        ⊎ (is_public_path request.path ≡ true)
        ⊎ ((is_ascii api_key ≡ true) × Provides request api_key))
unfolding authenticate compare_digest
authenticate_iff api_key request = ground (
  arith,
  text_eq_iff (provided_key request) api_key,
  provided-Provides request api_key,
  Provides-provided request api_key,
)
