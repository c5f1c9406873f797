-- ===== src/Parsers/Ozon/Endless.antt =====
-- A catalogue that never runs out of pages.
use marketplace_pipeline.Base.{
  ℕ, zero, suc, ◌+◌, ◌≡◌, ◌≤◌, ◌<◌, inl, inr, refl, sym, ap, ◌∙◌, true, false, List, none, ok, [],
  ◌∷◌, ◌++◌, length, length-append, lt→ltb, Bool-cases, arith, Text, Text-Eq, text_eq_iff, contains,
  contains-append, All, subst,
}
use marketplace_pipeline.Domain.Entities.{Product}
use marketplace_pipeline.Parsers.Ozon.Batch.{seen_after, seen_ids-add_batch}
use marketplace_pipeline.Parsers.Ozon.Steps.{collect_pages_go_on}
use marketplace_pipeline.Parsers.Ozon.{
  Source, Progress, empty_progress, go_on, round, add_product, add_batch, collect_pages, collect,
}

-- Every id of the page is seen.
abbrev AllSeen : List Text → List Product → Type 0
AllSeen seen batch = All (λ p. contains p.id seen ≡ true) batch

add_batch_seen :
    (target : ℕ) (progress : Progress) (batch : List Product)
    → AllSeen progress.seen_ids batch
    → add_batch target progress batch ≡ progress
unfolding add_batch
add_batch_seen target progress [] h = refl
add_batch_seen target progress (p ∷ batch) h = rw (h.0) (add_batch_seen target progress batch h.1)

-- A page adds at most its products.
length-add_batch-le :
    (target : ℕ) (progress : Progress) (batch : List Product)
    → length (add_batch target progress batch).products ≤ length progress.products + length batch
unfolding add_batch add_product
length-add_batch-le target progress [] = omega arith
length-add_batch-le target progress (p ∷ batch) = ground (
  arith,
  length-append progress.products (p ∷ []),
  length-add_batch-le target progress batch,
  length-add_batch-le target (add_product progress p) batch,
)

seen_after_mono :
    (a : Text) (seen : List Text) (batch : List Product)
    → contains a seen ≡ true
    → contains a (seen_after seen batch) ≡ true
unfolding seen_after
seen_after_mono a seen [] h = h
seen_after_mono a seen (p ∷ batch) h = ground (
  arith,
  contains-append a seen (p.id ∷ []),
  seen_after_mono a seen batch,
  seen_after_mono a (seen ++ p.id ∷ []) batch,
)

module _ (seen : List Text) (p : Product) (batch : List Product) where
  seen_after_old : contains p.id seen ≡ true → seen_after seen (p ∷ batch) ≡ seen_after seen batch
  unfolding seen_after
  seen_after_old old = rw old

  seen_after_new :
      contains p.id seen ≡ false
      → seen_after seen (p ∷ batch) ≡ seen_after (seen ++ p.id ∷ []) batch
  unfolding seen_after
  seen_after_new new = rw new

  contains_added : contains p.id (seen ++ p.id ∷ []) ≡ true
  unfolding contains
  contains_added = ground (arith, contains-append p.id seen (p.id ∷ []), text_eq_iff p.id p.id)

seen_after-AllSeen :
    (seen : List Text) (batch : List Product) → AllSeen (seen_after seen batch) batch
seen_after-AllSeen seen [] = tt
seen_after-AllSeen seen (p ∷ batch) = elim (Bool-cases (contains p.id seen)) [
  | inl old ↦
      subst (λ t. AllSeen t (p ∷ batch)) (sym (seen_after_old seen p batch old))
        (seen_after_mono p.id seen batch old, seen_after-AllSeen seen batch)
  | inr new ↦
      subst (λ t. AllSeen t (p ∷ batch)) (sym (seen_after_new seen p batch new))
        (
          seen_after_mono p.id (seen ++ p.id ∷ []) batch (contains_added seen p batch),
          seen_after-AllSeen (seen ++ p.id ∷ []) batch,
        )
]

module _ {S : Type 0} (source : Source S) (target : ℕ) (p : Product) (batch : List Product)
    (short : length (p ∷ batch) < target)
    (repeats : (page : ℕ) (s : S) → (source.fetch_page page s).0 ≡ ok (p ∷ batch)) where
  round_repeats :
      (page : ℕ) (progress : Progress) (s : S)
      → round target progress (source.fetch_page page s).0
        ≡ go_on (add_batch target progress (p ∷ batch))
  unfolding round
  round_repeats page progress s = rw (repeats page s)

  -- From a state in which the page is seen, no fuel is enough.
  collect_pages_seen :
      (fuel page : ℕ) (progress : Progress) (s : S)
      → length progress.products < target
      → AllSeen progress.seen_ids (p ∷ batch)
      → collect_pages source fuel target page progress s ≡ none
  unfolding collect_pages
  collect_pages_seen zero page progress s room seen = refl
  collect_pages_seen (suc fuel) page progress s room seen =
      collect_pages_go_on source fuel target page progress s progress (lt→ltb _ _ room)
        (round_repeats page progress s ∙ ap go_on (add_batch_seen target progress (p ∷ batch) seen))
      ∙ collect_pages_seen fuel (page + 1) progress (source.fetch_page page s).1 room seen

  collect_pages_endless :
      (fuel : ℕ) (s : S) → collect_pages source fuel target 1 empty_progress s ≡ none
  unfolding collect_pages
  collect_pages_endless zero s = refl
  collect_pages_endless (suc fuel) s =
      let next = add_batch target empty_progress (p ∷ batch) in
      let room : length next.products < target =
        omega (arith, length-add_batch-le target empty_progress (p ∷ batch)) in
      collect_pages_go_on source fuel target 1 empty_progress s next (lt→ltb _ _ (omega arith))
        (round_repeats 1 empty_progress s)
      ∙ collect_pages_seen fuel (1 + 1) next (source.fetch_page 1 s).1 room (
          subst (λ seen. AllSeen seen (p ∷ batch))
            (sym (seen_ids-add_batch target empty_progress (p ∷ batch) room))
            (seen_after-AllSeen [] (p ∷ batch)))

  -- A server that answers every page number with one page, which has a product and has fewer than
  -- the target, keeps the collector in its loop for ever: no number of rounds is enough.
  pub collect_endless : (fuel : ℕ) (s : S) → collect source fuel target s ≡ none
  unfolding collect
  collect_endless fuel s = rw (collect_pages_endless fuel s, collect)
