-- ===== src/Parsers/Ozon/Catalogue.antt =====
-- `collect` over a finite catalogue that is served without an error.
use native.Mathlib.Nat.{add-zero}
use marketplace_pipeline.Base.{
  ℕ, zero, suc, ◌+◌, ◌-◌, ◌≡◌, ◌<◌, inl, inr, sym, subst, ap, ◌∙◌, true, false, List, some, none,
  ok, [], ◌∷◌, ◌++◌, append-nil, length, take, take_cong, take_none, take_nil, ltb, ltb→lt, All,
  is_empty, Bool-cases, arith,
}
use marketplace_pipeline.Domain.Entities.{Product}
use marketplace_pipeline.Parsers.Ozon.{
  Source, Progress, empty_progress, reached, ran_out, round, add_batch, collect_pages,
  collection_result, collect,
}
use marketplace_pipeline.Parsers.Ozon.Steps.{
  collect_pages_reached, collect_pages_stop, collect_pages_go_on,
}
use marketplace_pipeline.Parsers.Ozon.Batch.{new_products}
use marketplace_pipeline.Parsers.Ozon.Pages.{page_then_rest}
use marketplace_pipeline.Parsers.Ozon.Served.{
  page_at, catalogue, Collected, finish-IsClean, result_of, collection_result-take, Serves,
}

module _ {S : Type 0} (source : Source S) where
  Serves-first :
      (page : ℕ) (pages : List (List Product)) (t : S)
      → Serves source page pages
      → (source.fetch_page page t).0 ≡ ok (page_at pages 0)
  unfolding Serves
  Serves-first page pages t serves = rw add-zero at (serves 0 t)

  Serves-rest :
      (page : ℕ) (batch : List Product) (pages : List (List Product))
      → Serves source page (batch ∷ pages)
      → Serves source (page + 1) pages
  unfolding Serves
  Serves-rest page batch pages serves i t =
      subst (λ n. (source.fetch_page n t).0 ≡ ok (page_at pages i)) (omega arith) (serves (suc i) t)

  module _ (fuel target page : ℕ) (progress : Progress) (s : S) where
    Collected-reached :
        (rest : List Product)
        → ltb (length progress.products) target ≡ false
        → Collected
            (progress.products ++ take (target - length progress.products) rest)
            (collect_pages source (suc fuel) target page progress s)
    Collected-reached rest done = record {
      ending = reached;
      progress = progress;
      state = s;
      returned = collect_pages_reached source fuel target page progress s done;
      is_clean = tt;
      as_expected = sym (
          ap (λ t. progress.products ++ t)
            (take_none (target - length progress.products) rest (ground arith))
          ∙ append-nil progress.products);
    }

    Collected-ran_out :
        (source.fetch_page page s).0 ≡ ok []
        → ltb (length progress.products) target ≡ true
        → Collected
            (progress.products ++ take (target - length progress.products) [])
            (collect_pages source (suc fuel) target page progress s)
    unfolding round
    Collected-ran_out empty more = record {
      ending = ran_out;
      progress = progress;
      state = (source.fetch_page page s).1;
      returned = collect_pages_stop source fuel target page progress s ran_out more (rw empty);
      is_clean = tt;
      as_expected = sym (
          ap (λ t. progress.products ++ t) (take_nil (target - length progress.products))
          ∙ append-nil progress.products);
    }

    Collected-go_on :
        (p : Product) (batch rest : List Product)
        → (source.fetch_page page s).0 ≡ ok (p ∷ batch)
        → ltb (length progress.products) target ≡ true
        → Collected
            ((add_batch target progress (p ∷ batch)).products
              ++ take
                  (target - length (add_batch target progress (p ∷ batch)).products)
                  (new_products (add_batch target progress (p ∷ batch)).seen_ids rest))
            (collect_pages source fuel target
              (page + 1)
              (add_batch target progress (p ∷ batch))
              (source.fetch_page page s).1)
        → Collected
            (progress.products
              ++ take
                  (target - length progress.products)
                  (new_products progress.seen_ids ((p ∷ batch) ++ rest)))
            (collect_pages source (suc fuel) target page progress s)
    unfolding round
    Collected-go_on p batch rest served more c = record {
      ending = c.ending;
      progress = c.progress;
      state = c.state;
      returned =
          collect_pages_go_on source fuel target page progress s
            (add_batch target progress (p ∷ batch)) more (rw served)
          ∙ c.returned;
      is_clean = c.is_clean;
      as_expected =
          c.as_expected ∙ page_then_rest target progress (p ∷ batch) rest (ltb→lt _ _ more);
    }

  collect_pages-Collected :
      (fuel target page : ℕ) (progress : Progress) (s : S) (pages : List (List Product))
      → Serves source page pages
      → All (λ batch. is_empty batch ≡ false) pages
      → length pages < fuel
      → Collected
          (progress.products
            ++ take
                (target - length progress.products)
                (new_products progress.seen_ids (catalogue pages)))
          (collect_pages source fuel target page progress s)
  unfolding new_products
  collect_pages-Collected zero target page progress s pages serves full enough =
      absurd (omega arith)
  collect_pages-Collected (suc fuel) target page progress s [] serves full enough =
      elim (Bool-cases (ltb (length progress.products) target)) [
        | inl more ↦
            Collected-ran_out fuel target page progress s (Serves-first page [] s serves) more
        | inr done ↦ Collected-reached fuel target page progress s [] done
      ]
  collect_pages-Collected (suc fuel) target page progress s ([] ∷ pages) serves full enough =
      cc (full.0)
  collect_pages-Collected (suc fuel) target page progress s ((p ∷ batch) ∷ pages) serves full
        enough =
      elim (Bool-cases (ltb (length progress.products) target)) [
        | inl more ↦
            Collected-go_on fuel target page progress s p batch (catalogue pages)
              (Serves-first page ((p ∷ batch) ∷ pages) s serves) more
              (collect_pages-Collected fuel target (page + 1)
                (add_batch target progress (p ∷ batch)) (source.fetch_page page s).1 pages
                (Serves-rest page (p ∷ batch) pages serves) full.1 (omega arith))
        | inr done ↦
            Collected-reached fuel target page progress s
              (new_products progress.seen_ids (catalogue ((p ∷ batch) ∷ pages))) done
      ]

  -- A catalogue of finitely many pages, each with a product, is collected within one round more
  -- than it has pages: the first product of each id, in catalogue order, up to the target. The
  -- result is not degraded, is exhausted exactly if the catalogue has fewer ids than the target,
  -- and the client is closed.
  pub collect_catalogue :
      (target : ℕ) (s : S) (pages : List (List Product))
      → Serves source 1 pages
      → All (λ batch. is_empty batch ≡ false) pages
      → (last : S) × (collect source (length pages + 1) target s
          ≡ some (ok (result_of target (new_products [] (catalogue pages))), source.close last))
  unfolding collect
  collect_catalogue target s pages serves full =
      let found = new_products [] (catalogue pages) in
      let c =
        collect_pages-Collected (length pages + 1) target 1 empty_progress s pages serves full
          (omega arith) in
      (
        c.state,
        rw (c.returned, collect)
            (ap (λ r. some (r, source.close c.state))
              (finish-IsClean target c.ending c.progress.products c.is_clean
                ∙ ap ok (
                    ap (collection_result target false none)
                      (c.as_expected ∙ take_cong (target - 0) target found (omega arith))
                    ∙ collection_result-take target found))),
      )
