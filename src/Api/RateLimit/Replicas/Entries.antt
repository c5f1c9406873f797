-- ===== src/Api/RateLimit/Replicas/Entries.antt =====
-- The members of one client in the sorted set of infrastructure/rate_limit/redis_sliding_window.py, as a
-- list: those of refused requests beside the others, and those of the last minute.
use marketplace_pipeline.Base.{
  ℕ, ◌+◌, ◌-◌, ◌≤◌, ◌<◌, ◌≡◌, refl, true, not, none, List, [], ◌∷◌, ◌++◌, Text, Text-Eq,
  text_eq_iff, contains, Dict, lookup, insert, erase, filter, length, if◌then◌else◌, arith,
}
use marketplace_pipeline.Api.RateLimit.{is_recent}
use marketplace_pipeline.Api.RateLimit.Requests.{in_window}
use marketplace_pipeline.Api.RateLimit.Redis.{outside}

-- The entries whose member is not in the list, and those that are not too old.
abbrev pub apart : List Text → Dict Text ℕ → Dict Text ℕ
apart refused entries = filter (λ e. not (contains e.0 refused)) entries

abbrev pub recent : ℕ → ℕ → Dict Text ℕ → Dict Text ℕ
recent minute now entries = filter (λ e. is_recent (minute - 1) now e.1) entries

-- What the pipeline removes first.
pub forget-recent :
    (minute now : ℕ) (entries : Dict Text ℕ)
    → 0 < minute
    → minute ≤ now
    → filter (outside 0 (now - minute)) entries ≡ recent minute now entries
unfolding filter
forget-recent minute now [] pos h = refl
forget-recent minute now ((m, ts) ∷ entries) pos h =
    ground (arith, forget-recent minute now entries pos h)

pub recent_all :
    (minute now : ℕ) (entries : Dict Text ℕ) → now < minute → recent minute now entries ≡ entries
unfolding filter
recent_all minute now [] h = refl
recent_all minute now ((m, ts) ∷ entries) h = ground (arith, recent_all minute now entries h)

-- The two filters commute, and an older one is taken over by a newer one.
pub apart-recent :
    (refused : List Text) (minute now : ℕ) (entries : Dict Text ℕ)
    → apart refused (recent minute now entries) ≡ recent minute now (apart refused entries)
unfolding filter
apart-recent refused minute now [] = refl
apart-recent refused minute now ((m, ts) ∷ entries) =
    ground (arith, apart-recent refused minute now entries)

pub recent-recent :
    (minute now later : ℕ) (entries : Dict Text ℕ)
    → now ≤ later
    → recent minute later (recent minute now entries) ≡ recent minute later entries
unfolding filter
recent-recent minute now later [] le = refl
recent-recent minute now later ((m, ts) ∷ entries) le =
    ground (arith, recent-recent minute now later entries le)

pub insert_new :
    (m : Text) (now : ℕ) (entries : Dict Text ℕ)
    → lookup m entries ≡ none
    → insert m now entries ≡ entries ++ (m, now) ∷ []
unfolding lookup insert
insert_new m now [] h = refl
insert_new m now ((j, ts) ∷ entries) h = ground (arith, insert_new m now entries)

-- A member that is refused or taken out plays no part among the others.
pub apart-cons :
    (m : Text) (refused : List Text) (entries : Dict Text ℕ)
    → lookup m entries ≡ none
    → apart (m ∷ refused) entries ≡ apart refused entries
unfolding filter lookup contains
apart-cons m refused [] h = refl
apart-cons m refused ((j, ts) ∷ entries) h =
    ground (arith, apart-cons m refused entries, text_eq_iff j m, text_eq_iff m j)

pub apart-erase :
    (m : Text) (refused : List Text) (entries : Dict Text ℕ)
    → contains m refused ≡ true
    → apart refused (erase m entries) ≡ apart refused entries
unfolding filter erase
apart-erase m refused [] h = refl
apart-erase m refused ((j, ts) ∷ entries) h =
    ground (arith, apart-erase m refused entries h, text_eq_iff j m)

-- How many requests went on in a window that begins at `start`.
abbrev pub in_window_of : ℕ → ℕ → Dict Text ℕ → ℕ
in_window_of minute start entries = length (filter (λ e. in_window (minute - 1) start e.1) entries)

pub window-recent :
    (minute start now : ℕ) (entries : Dict Text ℕ)
    → now ≤ start + (minute - 1)
    → in_window_of minute start entries ≤ length (recent minute now entries)
unfolding filter
window-recent minute start now [] h = ground arith
window-recent minute start now ((m, ts) ∷ entries) h =
    ground (arith, window-recent minute start now entries h)

pub window-append :
    (minute start now : ℕ) (m : Text) (entries : Dict Text ℕ)
    → in_window_of minute start (entries ++ (m, now) ∷ []) ≡ (
        if in_window (minute - 1) start now
        then in_window_of minute start entries + 1
        else in_window_of minute start entries)
unfolding filter
window-append minute start now m [] = ground arith
window-append minute start now m ((j, ts) ∷ entries) =
    ground (arith, window-append minute start now m entries)
