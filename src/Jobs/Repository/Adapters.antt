-- ===== src/Jobs/Repository/Adapters.antt =====
-- The columns of time of sqlite_job_repository.py, where `isoformat` and `fromisoformat` are Python's,
-- and of postgres_job_repository.py, which gets moments with or without a zone from its driver.
use marketplace_pipeline.Base.{
  ℕ, ◌≡◌, refl, Bool, true, false, ◌&&◌, ◌||◌, Option, none, some, [], ◌∷◌, Text, is_empty, ltb,
  nat_eq, Result, ok, ◌>>=◌, if◌then◌else◌,
}
use marketplace_pipeline.Jobs.Repository.Rows.{Stamps}
use marketplace_pipeline.Jobs.Repository.Refinement.{
  AreStamps, IsJobRepository, stamps-IsJobRepository,
}

-- SQLite's order of texts.
unfoldable pub text_less : Text → Text → Bool
text_less s [] = false
text_less [] (d ∷ t) = true
text_less (c ∷ s) (d ∷ t) = let rest = text_less s t in ltb c d || nat_eq c d && rest

module _ (isoformat : ℕ → Text) (fromisoformat : Text → Result ℕ) where
  -- `_parse_dt`
  unfoldable pub parse_dt : Option Text → Result (Option ℕ)
  parse_dt none = ok none
  parse_dt (some value) =
      if is_empty value then ok none else do moment ← fromisoformat value; ok (some moment)

  abbrev or_now : ℕ → Option ℕ → ℕ
  or_now now none = now
  or_now now (some moment) = moment

  abbrev pub sqlite_stamps : Stamps Text
  sqlite_stamps = record {
    write = isoformat;
    read_created = λ now value. do
      moment ← parse_dt (some value)
      ok (or_now now moment);
    read = parse_dt;
    less = text_less;
  }

  -- Python reads what it wrote, writes something, and the texts stand in the order of the times.
  pub record IsoLaws : Type 0 where
    pub reads : (t : ℕ) → fromisoformat (isoformat t) ≡ ok t
    pub writes : (t : ℕ) → is_empty (isoformat t) ≡ false
    pub keeps_order : (s t : ℕ) → text_less (isoformat s) (isoformat t) ≡ ltb s t

  sqlite_stamps-AreStamps : IsoLaws → AreStamps sqlite_stamps
  unfolding parse_dt
  sqlite_stamps-AreStamps iso = record {
    created_law = λ now t. rw (iso.writes t, iso.reads t) refl;
    some_law = λ t. rw (iso.writes t, iso.reads t) refl;
    none_law = refl;
    less_law = iso.keeps_order;
  }

-- A `datetime`, as the number of ticks that it shows, with or without UTC as its zone.
pub data DateTime : Type 0 where
  naive aware : ℕ → DateTime

-- `_ensure_utc`
unfoldable pub ensure_utc : DateTime → DateTime
ensure_utc (naive t) = aware t
ensure_utc (aware t) = aware t

-- `_optional_utc`
unfoldable pub optional_utc : Option DateTime → Option DateTime
unfolding ensure_utc
optional_utc none = none
optional_utc (some value) = some (ensure_utc value)

abbrev ticks : DateTime → ℕ
ticks (naive t) = t
ticks (aware t) = t

abbrev optional_ticks : Option DateTime → Option ℕ
optional_ticks none = none
optional_ticks (some value) = some (ticks value)

abbrev pub postgres_stamps : Stamps DateTime
postgres_stamps = record {
  write = aware;
  read_created = λ now value. ok (ticks (ensure_utc value));
  read = λ value. ok (optional_ticks (optional_utc value));
  less = λ s t. ltb (ticks s) (ticks t);
}

postgres_stamps-AreStamps : AreStamps postgres_stamps
unfolding optional_utc ensure_utc
postgres_stamps-AreStamps = record {
  created_law = λ now t. refl;
  some_law = λ t. refl;
  none_law = refl;
  less_law = λ s t. refl;
}

-- If Python reads back the texts that it writes for times, which are not empty and stand in the order
-- of the times, then on the rows that the SQLite adapter has written, `get`, `create`, `update` and
-- `list_recent` do what they do on the table of jobs, errors included: every job is read as it was
-- written, and nothing raises on reading.
pub sqlite-IsJobRepository :
    (isoformat : ℕ → Text) (fromisoformat : Text → Result ℕ)
    → IsoLaws isoformat fromisoformat
    → IsJobRepository (sqlite_stamps isoformat fromisoformat)
sqlite-IsJobRepository isoformat fromisoformat iso =
    stamps-IsJobRepository (sqlite_stamps isoformat fromisoformat)
      (sqlite_stamps-AreStamps isoformat fromisoformat iso)

-- The same of the Postgres adapter, whose moments have a zone.
pub postgres-IsJobRepository : IsJobRepository postgres_stamps
postgres-IsJobRepository = stamps-IsJobRepository postgres_stamps postgres_stamps-AreStamps
