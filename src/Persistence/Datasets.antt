-- ===== src/Persistence/Datasets.antt =====
-- infrastructure/adapters/persistence/json_enriched_product_repository.py, where `dumps` is the text
-- that pydantic and `json.dumps` make of the payload, and postgres_enriched_product_repository.py,
-- where `path_str` is the text of Python's `Path` and the database numbers its snapshots.
use marketplace_pipeline.Base.{
  ℕ, ◌+◌, ◌≡◌, some, List, [], ◌∷◌, ◌++◌, Text, Text-Eq, text_eq_iff, lookup, codes, decimal,
  Result, ok, err, Exec, arith,
}
use marketplace_pipeline.Domain.Entities.{EnrichedProduct, CollectionResult}
use marketplace_pipeline.Persistence.Files.{Files, atomic_write_text}
use marketplace_pipeline.Persistence.Files.Crash.{atomic_write_text_lem}

-- `self._output_dir / "enriched_products.json"`
unfoldable pub dataset_path : Text → Text
dataset_path output_dir = output_dir ++ codes "/enriched_products.json"

abbrev saved : Text → Result Files → Files → Result Text × Files
saved path (ok after) files = (ok path, after)
saved path (err e) files = (err e, files)

module _ (dumps : CollectionResult → List EnrichedProduct → Text) (output_dir : Text) where
  -- `JsonEnrichedProductRepository.save`
  unfoldable pub json_save : List EnrichedProduct → CollectionResult → Exec Files Text
  unfolding dataset_path atomic_write_text
  json_save products result files =
      let path = dataset_path output_dir in
      saved path (atomic_write_text path (dumps result products) files) files

  -- Saving in a file returns the file's path, and the file then has the text of these products and
  -- this result, whatever it had before.
  pub json_save_lem :
      (products : List EnrichedProduct) (result : CollectionResult) (files : Files)
      → ((json_save products result files).0 ≡ ok (dataset_path output_dir))
        × (lookup (dataset_path output_dir) (json_save products result files).1
            ≡ some (dumps result products))
  unfolding json_save
  json_save_lem products result files =
      let path = dataset_path output_dir in
      let (during, intact, (after, written, found)) =
        atomic_write_text_lem path (dumps result products) path 0 files in
      (ground (arith, written), ground (arith, written, found, text_eq_iff path path))

-- A row of `enriched_product_snapshots`.
pub record Snapshot : Type 0 where
  pub id : ℕ
  pub meta : CollectionResult
  pub products : List EnrichedProduct

pub record Snapshots : Type 0 where
  pub next_id : ℕ
  pub rows : List Snapshot

module _ (path_str : Text → Text) where
  -- `PostgresEnrichedProductRepository.save`
  unfoldable pub postgres_save : List EnrichedProduct → CollectionResult → Exec Snapshots Text
  postgres_save products result table = (
    ok (path_str (codes "postgres://enriched_product_snapshots/" ++ decimal table.next_id)),
    record {
      next_id = table.next_id + 1;
      rows = table.rows ++ record { id = table.next_id; meta = result; products = products } ∷ [];
    },
  )
