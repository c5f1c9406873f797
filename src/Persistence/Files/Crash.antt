-- ===== src/Persistence/Files/Crash.antt =====
-- What stands in the files when infrastructure/io/atomic.py is interrupted, and when two writers meet.
use marketplace_pipeline.Base.{
  ℕ, ◌≡◌, refl, false, none, some, [], ◌∷◌, Text, Text-Eq, text_eq, text_eq_iff, ◌==◌, lookup,
  lookup-insert, lookup-erase, insert, erase, take, take_all, length, codes, ok, err, other,
  if◌then◌else◌, arith,
}
use marketplace_pipeline.Persistence.Files.{
  Files, tmp_path, write_prefix, os_replace, atomic_write_text,
}

tmp_path_differs : (path : Text) → text_eq (tmp_path path) path ≡ false
unfolding tmp_path text_eq
tmp_path_differs [] = refl
tmp_path_differs (c ∷ path) = ground (arith, tmp_path_differs path)

-- What a file is after a replacement that finds its source.
lookup-os_replace :
    (source target text : Text) (files : Files)
    → lookup source files ≡ some text
    → (after : Files) × (os_replace source target files ≡ ok after)
      × ((j : Text)
          → lookup j after
            ≡ (if target == j then some text else if source == j then none else lookup j files))
unfolding os_replace
lookup-os_replace source target text files found = (
  insert target text (erase source files),
  rw found refl,
  λ j.
      ground (arith, lookup-insert target j text (erase source files), lookup-erase source j files),
)

os_replace_missing :
    (source target : Text) (files : Files)
    → lookup source files ≡ none
    → os_replace source target files ≡ err (other (codes "No such file or directory"))
unfolding os_replace
os_replace_missing source target files missing = rw missing refl

pub atomic_write_text_lem :
    (path content j : Text) (n : ℕ) (files : Files)
    → ((tmp_path path == j) ≡ false
        → lookup j (write_prefix n (tmp_path path) content files) ≡ lookup j files)
      × (lookup path (write_prefix n (tmp_path path) content files) ≡ lookup path files)
      × ((after : Files) × (atomic_write_text path content files ≡ ok after)
          × (lookup j after ≡ (
              if path == j
              then some content
              else if tmp_path path == j
              then none
              else lookup j files)))
unfolding write_prefix atomic_write_text
atomic_write_text_lem path content j n files =
    let tmp = tmp_path path in
    let written = write_prefix (length content) tmp content files in
    let whole = take_all (length content) content (omega arith) in
    let (after, moved, found) = lookup-os_replace tmp path content written (
      ground (
        arith,
        lookup-insert tmp tmp (take (length content) content) files,
        whole,
        text_eq_iff tmp tmp,
      )) in
    (
      λ other_file. ground (arith, lookup-insert tmp j (take n content) files),
      ground (arith, lookup-insert tmp path (take n content) files, tmp_path_differs path),
      (
        after,
        moved,
        ground (arith, found j, lookup-insert tmp j (take (length content) content) files),
      ),
    )

-- The code writes one file from two jobs through one temporary file. If the second has written `n`
-- characters when the first comes to its last step, the first returns, the file then has those `n`
-- characters of the second's text and nothing of the first's, and the second's last step raises.
pub torn_write :
    (path first second : Text) (n : ℕ) (files : Files)
    → let tmp = tmp_path path in
      let both = write_prefix n tmp second (write_prefix (length first) tmp first files) in
      (after : Files) × (os_replace tmp path both ≡ ok after)
      × (lookup path after ≡ some (take n second))
      × (os_replace tmp path after ≡ err (other (codes "No such file or directory")))
unfolding write_prefix
torn_write path first second n files =
    let tmp = tmp_path path in
    let both = write_prefix n tmp second (write_prefix (length first) tmp first files) in
    let text = take n second in
    let there : lookup tmp both ≡ some text = ground (
      arith,
      lookup-insert tmp tmp text (write_prefix (length first) tmp first files),
      text_eq_iff tmp tmp,
    ) in
    let (after, moved, found) = lookup-os_replace tmp path text both there in
    (
      after,
      moved,
      ground (arith, found path, text_eq_iff path path),
      os_replace_missing tmp path after (
          ground (
            arith,
            found tmp,
            tmp_path_differs path,
            text_eq_iff path tmp,
            text_eq_iff tmp path,
            text_eq_iff tmp tmp,
          )),
    )
