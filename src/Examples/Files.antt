-- ===== src/Examples/Files.antt =====
-- One file of infrastructure/io/atomic.py, written and written over.
use marketplace_pipeline.Base.{◌≡◌, some, [], ◌∷◌, Text, Text-Eq, lookup, codes, ok, err, other}
use marketplace_pipeline.Persistence.Files.{Files, tmp_path, write_prefix, os_replace}
use marketplace_pipeline.Persistence.Files.Crash.{torn_write}

abbrev path : Text
path = codes "data/p.json"

abbrev files : Files
files = (path, codes "old") ∷ (codes "data/q.json", codes "other") ∷ []

torn_write_example :
    let tmp = tmp_path path in
    let both = write_prefix 1 tmp (codes "second") (write_prefix 5 tmp (codes "first") files) in
    (after : Files) × (os_replace tmp path both ≡ ok after)
    × (lookup path after ≡ some (codes "s"))
    × (os_replace tmp path after ≡ err (other (codes "No such file or directory")))
torn_write_example = torn_write path (codes "first") (codes "second") 1 files
