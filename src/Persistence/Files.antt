-- ===== src/Persistence/Files.antt =====
-- infrastructure/io/atomic.py over a file system: the texts of the files by their paths. A path is its
-- text; directories are taken to exist. `Path.with_suffix(path.suffix + ".tmp")` adds ".tmp" to a path
-- that names a file.
pub mod Crash
use marketplace_pipeline.Base.{
  ℕ, Option, none, some, ◌++◌, Text, Text-Eq, Dict, lookup, insert, erase, take, length, codes,
  Result, ok, err, other,
}

abbrev pub Files : Type 0
Files = Dict Text Text

-- `path.with_suffix(f"{path.suffix}.tmp")`
unfoldable pub tmp_path : Text → Text
tmp_path path = path ++ codes ".tmp"

-- `write_text` of which so many characters have come into the file: opening it empties it first.
unfoldable pub write_prefix : ℕ → Text → Text → Files → Files
write_prefix n path content files = insert path (take n content) files

abbrev move : Text → Text → Option Text → Files → Result Files
move source target none files = err (other (codes "No such file or directory"))
move source target (some text) files = ok (insert target text (erase source files))

-- `os.replace`, which is one step.
unfoldable pub os_replace : Text → Text → Files → Result Files
os_replace source target files = move source target (lookup source files) files

unfoldable pub atomic_write_text : Text → Text → Files → Result Files
unfolding tmp_path write_prefix os_replace
atomic_write_text path content files =
    os_replace (tmp_path path) path (write_prefix (length content) (tmp_path path) content files)
