-- ===== src/Llm/Classifier.antt =====
-- infrastructure/adapters/llm/openai_classifier.py. The call of the chat endpoint, up to the text of
-- its first choice, and `json.loads` are parameters; of a JSON value the model keeps what the code
-- looks at. The log lines are left out.
pub mod Segments
pub mod Keeps
use marketplace_pipeline.Base.{
  ℕ, zero, suc, ◌+◌, Bool, true, false, ◌&&◌, ◌||◌, not, Option, none, some, List, [], ◌∷◌, ◌++◌,
  map, Text, Text-Eq, ◌==◌, codes, strip, lower, includes, is_empty, any, filter, contains, take,
  drop, length, ltb, nat_eq, if◌then◌else◌, Dict, lookup, insert, is_some, Result, ok, err, Error,
  other, Exec, exec_continue, ◌>>>=◌, pure,
}
use marketplace_pipeline.Domain.Entities.{
  Product, EnrichedProduct, PriceSegment, economy, standard, premium, segment_value,
}

-- An item of the answer: an object with what `str` gives of its two fields, or another value.
pub data Item : Type 0 where
  an_object : Option Text → Option Text → Item
  no_object : Item

pub data Items : Type 0 where
  a_list : List Item → Items
  no_list : Items

-- A parsed answer: an object with what it has under `items`, or another value.
pub data Answer : Type 0 where
  object_of : Option Items → Answer
  value : Items → Answer

abbrev or_empty : Option Text → Text
or_empty none = []
or_empty (some s) = s

-- `PriceSegment(segment_raw)`, with the standard segment for an unknown value.
unfoldable pub segment_of_raw : Text → PriceSegment
unfolding segment_value
segment_of_raw raw =
    if raw == segment_value economy
    then economy
    else if raw == segment_value premium
    then premium
    else standard

abbrev pub Segments : Type 0
Segments = Dict Text PriceSegment

-- The loop over the items of an answer. An item that is no object has no `get`.
unfoldable pub read_items : List Text → List Item → Segments → Result Segments
unfolding segment_of_raw
read_items expected [] result = ok result
read_items expected (no_object ∷ items) result = err (other (codes "object has no attribute 'get'"))
read_items expected (an_object id segment ∷ items) result = read_items expected items (
    if contains (or_empty id) expected
    then insert (or_empty id) (segment_of_raw (strip (or_empty segment))) result
    else result)

-- The loop over `expected_ids - result.keys()`
unfoldable pub add_missing : List Text → Segments → Segments
add_missing [] result = result
add_missing (id ∷ ids) result =
    add_missing ids (if is_some (lookup id result) then result else insert id standard result)

abbrev items_of : Answer → Option (List Item)
items_of (object_of none) = none
items_of (object_of (some no_list)) = none
items_of (object_of (some (a_list items))) = some items
items_of (value no_list) = none
items_of (value (a_list items)) = some items

abbrev segments_of : List Text → Result Segments → Result Segments
segments_of expected (err e) = err e
segments_of expected (ok result) = ok (add_missing expected result)

abbrev segments_of_items : List Text → Option (List Item) → Result Segments
segments_of_items expected none = err (other (codes "LLM response does not contain items list"))
segments_of_items expected (some items) = segments_of expected (read_items expected items [])

-- `_parse_segments`, after `json.loads`
unfoldable pub parse_segments : List Text → Answer → Result Segments
unfolding read_items add_missing
parse_segments expected answer = segments_of_items expected (items_of answer)

-- `_mock_classify`
unfoldable pub mock_classify : Product → EnrichedProduct
mock_classify product =
    let name = lower product.name in
    let says = λ (tokens : List Text). any (λ token. includes token name) tokens in
    record {
      product = product;
      segment =
          if says (codes "budget" ∷ codes "econom" ∷ codes "дешев" ∷ [])
          then economy
          else if says (codes "flagship" ∷ codes "pro" ∷ codes "premium" ∷ codes "премиум" ∷ [])
          then premium
          else if ltb product.price 15000
          then economy
          else if ltb 60000 product.price
          then premium
          else standard;
    }

-- The slices of `_chunk` from an index on, with fuel for as many as there are items.
unfoldable pub chunks_from : ℕ → ℕ → ℕ → List Product → List (List Product)
chunks_from zero size index items = []
chunks_from (suc fuel) size index items =
    let rest = chunks_from fuel size (index + size) items in
    if ltb index (length items) then drop index (take (index + size) items) ∷ rest else []

-- `_chunk`: `range` raises for the step 0.
unfoldable pub chunk : List Product → ℕ → Result (List (List Product))
unfolding chunks_from
chunk items size =
    if nat_eq size 0
    then err (other (codes "range() arg 3 must not be zero"))
    else ok (chunks_from (length items) size 0 items)

pub record LlmSettings : Type 0 where
  pub mock_llm : Bool
  pub llm_batch_size : ℕ

pub record PayloadItem : Type 0 where
  pub id : Text
  pub name : Text
  pub description : Text

abbrev pub payload_item : Product → PayloadItem
payload_item p = record { id = p.id; name = p.name; description = p.description }

-- `{product.id: PriceSegment.STANDARD for product in batch}`
unfoldable pub fallback : List Product → Segments → Segments
fallback [] segments = segments
fallback (product ∷ batch) segments = fallback batch (insert product.id standard segments)

abbrev segments_or_fallback : List Product → Result Segments → Segments
segments_or_fallback batch (ok segments) = segments
segments_or_fallback batch (err e) = fallback batch []

-- `d.update(e)`
unfoldable pub update_all : Segments → Segments → Segments
update_all segments [] = segments
update_all segments ((id, segment) ∷ more) = update_all (insert id segment segments) more

abbrev pub or_standard : Option PriceSegment → PriceSegment
or_standard none = standard
or_standard (some segment) = segment

abbrev pub enrich : Segments → Product → EnrichedProduct
enrich segments product = record {
  product = product;
  segment = or_standard (lookup product.id segments);
}

module _ {W : Type 0} (post : List PayloadItem → Exec W Text)
    (json_loads : Text → Result Answer) where
  abbrev read_answer : List Text → Text → Exec W Segments
  read_answer expected content =
      exec_continue (json_loads content) (λ answer w. (parse_segments expected answer, w))

  -- `_classify_batch`: whatever is raised, the batch falls back to the standard segment.
  unfoldable pub classify_batch : List Product → W → Segments × W
  unfolding parse_segments fallback
  classify_batch batch w =
      let asked = (post (map payload_item batch) >>>= read_answer (map (λ p. p.id) batch)) w in
      (segments_or_fallback batch asked.0, asked.1)

  -- The loop over the batches.
  unfoldable pub classify_batches : List (List Product) → Segments → W → Segments × W
  unfolding classify_batch update_all
  classify_batches [] segments w = (segments, w)
  classify_batches (batch ∷ batches) segments w =
      let (found, w') = classify_batch batch w in
      classify_batches batches (update_all segments found) w'

  abbrev enrich_all : List Product → Result (List (List Product)) → Exec W (List EnrichedProduct)
  enrich_all products (err e) w = (err e, w)
  enrich_all products (ok batches) w =
      let (segments, w') = classify_batches batches [] w in
      (ok (map (enrich segments) products), w')

  -- `classify`
  unfoldable pub classify : LlmSettings → List Product → Exec W (List EnrichedProduct)
  unfolding mock_classify chunk classify_batches
  classify settings products w =
      if is_empty products
      then (ok [], w)
      else if settings.mock_llm
      then (ok (map mock_classify products), w)
      else enrich_all products (chunk products settings.llm_batch_size) w
