-- ===== src/Domain/IdempotencyPolicy/Marker.antt =====
-- The marker of domain/services/idempotency_policy.py, written and read back.
use native.Mathlib.Nat.{zero-add, suc-add}
use marketplace_pipeline.Base.{
  ℕ, ◌+◌, ◌≡◌, refl, sym, ap, ◌∙◌, false, some, List, [], ◌∷◌, ◌++◌, Text, ℕ-Eq, contains, codes,
  find, includes, starts_with, slice, length, drop, take, rstrip, append_assoc, length-append,
  arith,
}
use marketplace_pipeline.Domain.IdempotencyPolicy.{
  marker_prefix, marker_suffix, marker_of, append_idempotency_marker, extract_idempotency_marker,
}
use marketplace_pipeline.Domain.IdempotencyPolicy.Search.{
  find-append, find_self, find_char, includes-rstrip, includes-shorter,
}

drop-append {ℓ} : {A : Type ℓ} (xs ys : List A) → drop (length xs) (xs ++ ys) ≡ ys
drop-append [] ys = refl
drop-append (x ∷ xs) ys = drop-append xs ys

drop_behind {ℓ} :
    {A : Type ℓ} (xs ys : List A) (n : ℕ) → drop (length xs + n) (xs ++ ys) ≡ drop n ys
drop_behind [] ys n = rw zero-add
drop_behind (x ∷ xs) ys n = rw suc-add (drop_behind xs ys n)

take_behind {ℓ} :
    {A : Type ℓ} (xs ys : List A) (n : ℕ) → take (length xs + n) (xs ++ ys) ≡ xs ++ take n ys
take_behind [] ys n = rw zero-add
take_behind (x ∷ xs) ys n = rw suc-add (ap (◌∷◌ x) (take_behind xs ys n))

take-append {ℓ} : {A : Type ℓ} (xs ys : List A) → take (length xs) (xs ++ ys) ≡ xs
take-append [] ys = refl
take-append (x ∷ xs) ys = ap (◌∷◌ x) (take-append xs ys)

-- The end of the marker, from its start.
find-marker_suffix :
    (key after : Text)
    → contains b']' key ≡ false
    → find marker_suffix (marker_prefix ++ (key ++ (marker_suffix ++ after)))
      ≡ some (length (marker_prefix ++ key))
unfolding contains
find-marker_suffix key after clean =
    ap (find marker_suffix) (sym (append_assoc marker_prefix key (marker_suffix ++ after)))
    ∙ find_char b']' (marker_prefix ++ key) after clean

slice-between :
    (before middle key after : Text)
    → slice
        (length before + length middle)
        (length before + length (middle ++ key))
        (before ++ (middle ++ (key ++ after)))
      ≡ key
unfolding slice
slice-between before middle key after =
    rw (take_behind, drop_behind, ← append_assoc middle key after, take-append)
      (drop-append middle key)

-- What is read from a text whose first marker is known.
extract_at :
    (before key after : Text)
    → find marker_prefix (before ++ (marker_prefix ++ (key ++ (marker_suffix ++ after))))
      ≡ some (length before)
    → contains b']' key ≡ false
    → extract_idempotency_marker (before ++ (marker_prefix ++ (key ++ (marker_suffix ++ after))))
      ≡ some key
unfolding extract_idempotency_marker
extract_at before key after found clean =
    rw (found, drop-append, find-marker_suffix)
      (ap some (slice-between before marker_prefix key (marker_suffix ++ after)))

-- The blank line in front of the marker keeps an occurrence from reaching over it.
find-marker_prefix :
    (before rest : Text)
    → includes marker_prefix before ≡ false
    → find marker_prefix ((before ++ codes "\n\n") ++ (marker_prefix ++ rest))
      ≡ some (length (before ++ codes "\n\n"))
unfolding contains
find-marker_prefix before rest unmarked =
    ap (find marker_prefix) (append_assoc before (codes "\n\n") (marker_prefix ++ rest))
    ∙ (find-append b'[' (codes "pipeline:idempotency:") before 10 (10 ∷ (marker_prefix ++ rest)) 1
          refl unmarked
          (unfold includes find starts_with in
            find-append b'[' (codes "pipeline:idempotency:") [] 10 (marker_prefix ++ rest) 0 refl
              refl (find_self b'[' (codes "pipeline:idempotency:") rest))
        ∙ ap some (omega (arith, length-append before (codes "\n\n"))))

extract-behind_blank_line :
    (text key : Text)
    → includes marker_prefix text ≡ false
    → contains b']' key ≡ false
    → extract_idempotency_marker (text ++ (codes "\n\n" ++ marker_of key)) ≡ some key
unfolding marker_of
extract-behind_blank_line text key unmarked clean =
    ap extract_idempotency_marker
      (sym (append_assoc text (codes "\n\n") (marker_prefix ++ (key ++ marker_suffix))))
    ∙ extract_at (text ++ codes "\n\n") key []
        (find-marker_prefix text (key ++ marker_suffix) unmarked) clean

-- A marker that is appended to a text without one is the one that is read back, for a key without
-- a closing bracket, such as a hexadecimal digest.
pub extract-append_idempotency_marker :
    (text key : Text)
    → includes marker_prefix text ≡ false
    → contains b']' key ≡ false
    → extract_idempotency_marker (append_idempotency_marker text key) ≡ some key
unfolding append_idempotency_marker marker_of
extract-append_idempotency_marker text key unmarked clean =
    rw (includes-shorter marker_prefix (key ++ marker_suffix) text unmarked) (
      extract-behind_blank_line (rstrip text) key (includes-rstrip marker_prefix text unmarked)
        clean)
