-- ===== src/Domain/IdempotencyPolicy.antt =====
-- domain/services/idempotency_policy.py. `sha256` stands for hashlib's digest of the UTF-8 bytes
-- of a text, printed in hexadecimal.
pub mod Search
pub mod Marker
use marketplace_pipeline.Base.{
  ℕ, ◌+◌, ◌-◌, Option, none, some, ◌++◌, Text, codes, length, drop, strip, rstrip, find, includes,
  slice, if◌then◌else◌,
}
use marketplace_pipeline.Domain.Entities.{CrmTaskRequest}

abbrev pub marker_prefix : Text
marker_prefix = codes "[pipeline:idempotency:"

abbrev pub marker_suffix : Text
marker_suffix = codes "]"

unfoldable pub canonical : CrmTaskRequest → Text
canonical task = strip task.title ++ (codes "\n" ++ strip task.description)

unfoldable pub compute_task_idempotency_key : (Text → Text) → CrmTaskRequest → Text
unfolding canonical
compute_task_idempotency_key sha256 task = sha256 (canonical task)

unfoldable pub marker_of : Text → Text
marker_of key = marker_prefix ++ (key ++ marker_suffix)

unfoldable pub append_idempotency_marker : Text → Text → Text
unfolding marker_of
append_idempotency_marker text key =
    if includes (marker_of key) text then text else rstrip text ++ (codes "\n\n" ++ marker_of key)

-- A position in `text[start:]`, as one in `text`.
abbrev position_from : ℕ → Option ℕ → Option ℕ
position_from start none = none
position_from start (some i) = some (start + i)

-- `text.find(sub, start)`
abbrev find_from : Text → Text → ℕ → Option ℕ
find_from sub text start = position_from start (find sub (drop start text))

abbrev marker_until : Text → ℕ → Option ℕ → Option Text
marker_until text start none = none
marker_until text start (some end) = some (slice (start + length marker_prefix) end text)

abbrev marker_from : Text → Option ℕ → Option Text
marker_from text none = none
marker_from text (some start) = marker_until text start (find_from marker_suffix text start)

unfoldable pub extract_idempotency_marker : Text → Option Text
extract_idempotency_marker text = marker_from text (find marker_prefix text)
