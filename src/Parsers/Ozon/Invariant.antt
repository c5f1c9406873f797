-- ===== src/Parsers/Ozon/Invariant.antt =====
-- What every result of `collect` satisfies, whatever the pages hold and however they fail.
use marketplace_pipeline.Base.{
  ℕ, zero, suc, ◌+◌, ◌≡◌, ◌≤◌, ◌<◌, ◌↔◌, ◌⊎◌, inl, inr, refl, sym, ◌∙◌, Bool, true, false, List,
  Option, some, none, Result, ok, err, proxy_quota_exhausted, [], ◌∷◌, map, map-append, length,
  length-append, take_all, ltb, leb, ltb→lt, Bool-cases, arith, Text, Text-Eq, contains, Distinct,
  Distinct-append, is_some, subst,
}
use marketplace_pipeline.Domain.Entities.{Product, CollectionResult}
use marketplace_pipeline.Parsers.Ozon.Steps.{
  collect_pages_reached, collect_pages_stop, collect_pages_go_on,
}
use marketplace_pipeline.Parsers.Ozon.{
  Source, Progress, empty_progress, Ending, reached, ran_out, broken, aborted, Round, stop, go_on,
  round, add_product, add_batch, collect_pages, collection_result, finish, collect,
}

-- The ids of the products.
abbrev pub ids : List Product → List Text
ids products = map (λ p. p.id) products

-- Between two pages.
record IsOrderly (target : ℕ) (progress : Progress) : Type 0 where
  seen : progress.seen_ids ≡ ids progress.products
  distinct : Distinct (ids progress.products)
  bounded : length progress.products ≤ target

add_product-IsOrderly :
    (target : ℕ) (progress : Progress) (p : Product)
    → IsOrderly target progress
    → length progress.products < target
    → contains p.id progress.seen_ids ≡ false
    → IsOrderly target (add_product progress p)
unfolding add_product
add_product-IsOrderly target progress p o room new = record {
  seen = rw o.seen (sym (map-append (λ (q : Product). q.id) progress.products (p ∷ [])));
  distinct =
      rw map-append (Distinct-append (ids progress.products) p.id o.distinct (rw o.seen at new));
  bounded = omega (arith, length-append progress.products (p ∷ []));
}

add_batch-IsOrderly :
    (target : ℕ) (progress : Progress) (batch : List Product)
    → IsOrderly target progress
    → length progress.products < target
    → IsOrderly target (add_batch target progress batch)
unfolding add_batch
add_batch-IsOrderly target progress [] o room = o
add_batch-IsOrderly target progress (p ∷ batch) o room =
    elim (Bool-cases (contains p.id progress.seen_ids)) [
      | inl old ↦ rw old (add_batch-IsOrderly target progress batch o room)
      | inr new ↦
          let o' = add_product-IsOrderly target progress p o room new in
          rw new (elim (Bool-cases (leb target (length (add_product progress p).products))) [
            | inl full ↦ rw full o'
            | inr more ↦
                rw more
                  (add_batch-IsOrderly target (add_product progress p) batch o' (ground arith))
          ])
    ]

round-IsOrderly :
    (target : ℕ) (progress : Progress) (fetched : Result (List Product)) (next : Progress)
    → IsOrderly target progress
    → length progress.products < target
    → round target progress fetched ≡ go_on next
    → IsOrderly target next
unfolding round
round-IsOrderly target progress (ok (p ∷ batch)) next o room h =
    subst (IsOrderly target) (cc) (add_batch-IsOrderly target progress (p ∷ batch) o room)
round-IsOrderly target progress (ok []) next o room h = cc
round-IsOrderly target progress (err (proxy_quota_exhausted m)) next o room h = cc
round-IsOrderly target progress (err e) next o room h = cc

-- What the loop returns.
abbrev Ends : ℕ → {S : Type 0} → Option (Ending × Progress × S) → Type 0
Ends target none = Unit
Ends target (some (ending, progress, s)) =
    IsOrderly target progress × (ending ≡ reached → target ≤ length progress.products)

round-ne-reached :
    (target : ℕ) (progress : Progress) (fetched : Result (List Product))
    → ¬ (round target progress fetched ≡ stop reached)
unfolding round
round-ne-reached target progress (ok (p ∷ batch)) h = cc
round-ne-reached target progress (ok []) h = cc
round-ne-reached target progress (err (proxy_quota_exhausted m)) h = cc
round-ne-reached target progress (err e) h = cc

Round-cases : (r : Round) → ((e : Ending) × (r ≡ stop e)) ⊎ ((p : Progress) × (r ≡ go_on p))
Round-cases (stop e) = inl (e, refl)
Round-cases (go_on p) = inr (p, refl)

module _ {S : Type 0} (source : Source S) where
  collect_pages-Ends :
      (fuel target page : ℕ) (progress : Progress) (s : S)
      → IsOrderly target progress
      → Ends target (collect_pages source fuel target page progress s)
  unfolding collect_pages
  collect_pages-Ends zero target page progress s o = tt
  collect_pages-Ends (suc fuel) target page progress s o =
      elim (Bool-cases (ltb (length progress.products) target)) [
        | inr done ↦
            rw (collect_pages_reached source fuel target page progress s done)
              (o, λ _. ground arith)
        | inl more ↦ elim (Round-cases (round target progress (source.fetch_page page s).0)) [
          | inl (e, h) ↦
              rw (collect_pages_stop source fuel target page progress s e more h)
                (o, λ is. absurd (round-ne-reached target progress _ (rw is at h)))
          | inr (next, h) ↦
              rw (collect_pages_go_on source fuel target page progress s next more h) (
                collect_pages-Ends fuel target (page + 1) next (source.fetch_page page s).1
                  (round-IsOrderly target progress _ next o (ltb→lt _ _ more) h))
        ]
      ]

start : (target : ℕ) → IsOrderly target empty_progress
start target = record { seen = refl; distinct = tt; bounded = omega arith }

-- A result that the pipeline can go on with.
pub record IsSound (target : ℕ) (r : CollectionResult) : Type 0 where
  pub bounded : length r.products ≤ target
  pub counted : r.collected_count ≡ length r.products
  pub distinct : Distinct (ids r.products)
  pub exhausted : (r.exhausted ≡ true) ↔ ((r.collected_count < target) × (r.degraded ≡ false))
  pub complete : r.exhausted ≡ false → r.degraded ≡ false → r.collected_count ≡ target
  pub reported : is_some r.error_message ≡ r.degraded

collection_result-IsSound :
    (target : ℕ) (degraded : Bool) (message : Option Text) (products : List Product)
    → length products ≤ target
    → Distinct (ids products)
    → is_some message ≡ degraded
    → IsSound target (collection_result target degraded message products)
unfolding collection_result
collection_result-IsSound target degraded message products fits distinct reported =
    let all = take_all target products fits in
    record {
      bounded = rw all fits;
      counted = refl;
      distinct = rw all distinct;
      exhausted = ground (arith, all);
      complete = λ h k. ground (arith, all);
      reported = reported;
    }

ok-injective {ℓ} : {A : Type ℓ} {a b : A} → ok a ≡ ok b → a ≡ b
ok-injective h = cc

finish-IsSound :
    (target : ℕ) (ending : Ending) (products : List Product) (r : CollectionResult)
    → length products ≤ target
    → Distinct (ids products)
    → finish target ending products ≡ ok r
    → IsSound target r
unfolding finish
finish-IsSound target reached products r fits d h =
    subst (IsSound target) (ok-injective h)
      (collection_result-IsSound target false none products fits d refl)
finish-IsSound target ran_out products r fits d h =
    subst (IsSound target) (ok-injective h)
      (collection_result-IsSound target false none products fits d refl)
finish-IsSound target (broken m) products r fits d h =
    subst (IsSound target) (ok-injective h)
      (collection_result-IsSound target true (some m) products fits d refl)
finish-IsSound target (aborted m) products r fits d h = cc

finish_of :
    {S : Type 0} (close : S → S) (target : ℕ) (loop : Option (Ending × Progress × S))
    → Option (Result CollectionResult × S)
finish_of close target none = none
finish_of close target (some (ending, progress, s)) =
    some (finish target ending progress.products, close s)

finish_of-IsSound :
    {S : Type 0} (close : S → S) (target : ℕ) (loop : Option (Ending × Progress × S))
    (r : CollectionResult) (last : S)
    → Ends target loop
    → finish_of close target loop ≡ some (ok r, last)
    → IsSound target r
unfolding finish_of
finish_of-IsSound close target none r last ends h = cc
finish_of-IsSound close target (some (ending, progress, s)) r last ends h =
    let o = ends.0 in finish-IsSound target ending progress.products r o.bounded o.distinct (cc)

collect-eq-finish_of :
    {S : Type 0} (source : Source S) (fuel target : ℕ) (s : S)
    → collect source fuel target s
      ≡ finish_of source.close target (collect_pages source fuel target 1 empty_progress s)
unfolding collect finish_of
collect-eq-finish_of source fuel target s = ground arith

-- Whatever the pages hold and however they fail, a result has at most the target's products, no
-- two with one id, and counts them. It is exhausted exactly if it is short of the target and not
-- degraded, has the target's products if it is neither, and has a message exactly if it is
-- degraded.
pub collect-IsSound :
    {S : Type 0} (source : Source S) (fuel target : ℕ) (s : S) (r : CollectionResult) (last : S)
    → collect source fuel target s ≡ some (ok r, last)
    → IsSound target r
collect-IsSound source fuel target s r last h =
    finish_of-IsSound source.close target (collect_pages source fuel target 1 empty_progress s) r
      last (collect_pages-Ends source fuel target 1 empty_progress s (start target))
      (sym (collect-eq-finish_of source fuel target s) ∙ h)
