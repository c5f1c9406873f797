-- ===== src/Llm/Classifier/Segments.antt =====
-- What `_parse_segments` of the classifier reads from an answer.
use marketplace_pipeline.Base.{
  ◌≡◌, ◌≢◌, ◌⊎◌, inl, inr, Bool-cases, false, refl, Option, none, some, List, [], ◌∷◌, Text,
  Text-Eq, ◌==◌, text_eq_iff, strip, contains, if◌then◌else◌, lookup, insert, lookup-insert,
  is_some, ok, arith,
}
use marketplace_pipeline.Domain.Entities.{PriceSegment, economy, standard, premium, segment_value}
use marketplace_pipeline.Llm.Classifier.{
  Item, an_object, no_object, Answer, Segments, read_items, add_missing, parse_segments, items_of,
  segment_of_raw, or_empty, or_standard,
}

abbrev pub AllObjects : List Item → Type 0
AllObjects [] = Unit
AllObjects (no_object ∷ items) = ⊥
AllObjects (an_object id segment ∷ items) = AllObjects items

abbrev or_else : Option PriceSegment → Option PriceSegment → Option PriceSegment
or_else none other = other
or_else (some segment) other = some segment

-- What the last of the items with this identifier says.
unfoldable pub last_said : Text → List Item → Option PriceSegment
last_said id [] = none
last_said id (no_object ∷ items) = last_said id items
last_said id (an_object i segment ∷ items) =
    or_else (last_said id items)
      (if or_empty i == id then some (segment_of_raw (strip (or_empty segment))) else none)

or_else_assoc : (a b c : Option PriceSegment) → or_else a (or_else b c) ≡ or_else (or_else a b) c
or_else_assoc none b c = refl
or_else_assoc (some a) b c = refl

read_items_lem :
    (expected : List Text) (items : List Item) (result : Segments)
    → AllObjects items
    → (d : Segments) × (read_items expected items result ≡ ok d)
      × ((id : Text)
          → lookup id d ≡ (
              if contains id expected
              then or_else (last_said id items) (lookup id result)
              else lookup id result))
unfolding read_items last_said
read_items_lem expected [] result h = (result, refl, λ id. ground arith)
read_items_lem expected (no_object ∷ items) result h = elim h [ ]
read_items_lem expected (an_object i s ∷ items) result h =
    let said = segment_of_raw (strip (or_empty s)) in
    let next : Segments =
      if contains (or_empty i) expected then insert (or_empty i) said result else result in
    let (d, read, found) = read_items_lem expected items next h in
    (
      d,
      read,
      λ id. ground (
        arith,
        found id,
        lookup-insert (or_empty i) id said result,
        or_else_assoc (last_said id items) (some said) (lookup id result),
        text_eq_iff (or_empty i) id,
      ),
    )

add_missing_lem :
    (ids : List Text) (result : Segments) (id : Text)
    → lookup id (add_missing ids result)
      ≡ (if contains id ids then some (or_standard (lookup id result)) else lookup id result)
unfolding add_missing contains
add_missing_lem [] result id = refl
add_missing_lem (i ∷ ids) result id = ground (
  arith,
  add_missing_lem ids (if is_some (lookup i result) then result else insert i standard result) id,
  lookup-insert i id standard result,
  text_eq_iff i id,
)

-- The text of the last of the items with this identifier, without the white space around it.
abbrev pub last_text : Text → List Item → Option Text
last_text id [] = none
last_text id (no_object ∷ items) = last_text id items
last_text id (an_object i segment ∷ items) = elim (last_text id items) [
  | some raw ↦ some raw
  | none ↦ if or_empty i == id then some (strip (or_empty segment)) else none
]

-- The segment that a text stands for: the one with this value; the standard one for any other text,
-- and where there is no text.
abbrev pub StandsFor : Option Text → PriceSegment → Type 0
StandsFor none segment = segment ≡ standard
StandsFor (some raw) segment =
    (raw ≡ segment_value segment)
    ⊎ ((segment ≡ standard) × ((other : PriceSegment) → raw ≢ segment_value other))

no_value :
    (raw : Text)
    → (raw == segment_value economy) ≡ false
    → (raw == segment_value premium) ≡ false
    → (raw == segment_value standard) ≡ false
    → (other : PriceSegment) → raw ≢ segment_value other
no_value raw e p s economy same = ground (arith, text_eq_iff raw (segment_value economy))
no_value raw e p s premium same = ground (arith, text_eq_iff raw (segment_value premium))
no_value raw e p s standard same = ground (arith, text_eq_iff raw (segment_value standard))

segment_of_raw-StandsFor : (raw : Text) → StandsFor (some raw) (segment_of_raw raw)
unfolding segment_of_raw
segment_of_raw-StandsFor raw = elim (Bool-cases (raw == segment_value economy)) [
  | inl e ↦ rw e (inl ((text_eq_iff raw (segment_value economy)).0 e))
  | inr e ↦ elim (Bool-cases (raw == segment_value premium)) [
    | inl p ↦ rw (e, p) (inl ((text_eq_iff raw (segment_value premium)).0 p))
    | inr p ↦ elim (Bool-cases (raw == segment_value standard)) [
      | inl s ↦ rw (e, p) (inl ((text_eq_iff raw (segment_value standard)).0 s))
      | inr s ↦ rw (e, p) (inr (refl, no_value raw e p s))
    ]
  ]
]

segment_said : Option Text → Option PriceSegment
segment_said none = none
segment_said (some raw) = some (segment_of_raw raw)

last_said-last_text :
    (id : Text) (items : List Item) → last_said id items ≡ segment_said (last_text id items)
unfolding last_said segment_said
last_said-last_text id [] = refl
last_said-last_text id (no_object ∷ items) = last_said-last_text id items
last_said-last_text id (an_object i segment ∷ items) = ground (arith, last_said-last_text id items)

segment_said-StandsFor : (o : Option Text) → StandsFor o (or_standard (segment_said o))
unfolding segment_said
segment_said-StandsFor none = refl
segment_said-StandsFor (some raw) = segment_of_raw-StandsFor raw

last_said-StandsFor :
    (id : Text) (items : List Item)
    → StandsFor (last_text id items) (or_standard (last_said id items))
last_said-StandsFor id items =
    rw (last_said-last_text id items) (segment_said-StandsFor (last_text id items))

-- For an answer that is a list of objects, bare or under `items`, parsing succeeds, and its result
-- has exactly the expected identifiers: each with the segment whose value the last item of that
-- identifier has, white space around it aside, and with the standard one when that text is no
-- segment's value or no item has the identifier.
pub parse_segments_lem :
    (expected : List Text) (items : List Item) (answer : Answer)
    → items_of answer ≡ some items
    → AllObjects items
    → (d : Segments) × (parse_segments expected answer ≡ ok d)
      × ((id : Text)
          → (segment : PriceSegment) × StandsFor (last_text id items) segment
            × (lookup id d ≡ (if contains id expected then some segment else none)))
unfolding parse_segments lookup
parse_segments_lem expected items answer list objects =
    let (d, read, found) = read_items_lem expected items [] objects in
    (
      add_missing expected d,
      rw (list, read) refl,
      λ id. (
        or_standard (last_said id items),
        last_said-StandsFor id items,
        ground (arith, found id, add_missing_lem expected d id),
      ),
    )
