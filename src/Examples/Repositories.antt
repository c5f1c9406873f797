-- ===== src/Examples/Repositories.antt =====
-- The SQLite adapter with times that are written as so many strokes, and one more.
use marketplace_pipeline.Base.{
  ℕ, zero, suc, ◌+◌, ◌-◌, ◌≡◌, refl, ap, false, [], ◌∷◌, Text, length, is_empty, ltb, Result, ok,
  arith,
}
use marketplace_pipeline.Jobs.Repository.Adapters.{
  text_less, sqlite_stamps, IsoLaws, sqlite-IsJobRepository,
}
use marketplace_pipeline.Jobs.Repository.Refinement.{IsJobRepository}

abbrev strokes : ℕ → Text
strokes zero = b'I' ∷ []
strokes (suc t) = b'I' ∷ strokes t

abbrev count_strokes : Text → Result ℕ
count_strokes text = ok (length text - 1)

length-strokes : (t : ℕ) → length (strokes t) ≡ t + 1
length-strokes zero = refl
length-strokes (suc t) = omega (arith, length-strokes t)

strokes_empty : (t : ℕ) → is_empty (strokes t) ≡ false
strokes_empty zero = refl
strokes_empty (suc t) = refl

strokes_order : (s t : ℕ) → text_less (strokes s) (strokes t) ≡ ltb s t
unfolding text_less
strokes_order zero zero = refl
strokes_order zero (suc zero) = refl
strokes_order zero (suc (suc t)) = ground arith
strokes_order (suc zero) zero = refl
strokes_order (suc (suc s)) zero = ground arith
strokes_order (suc s) (suc t) = ground (arith, strokes_order s t)

strokes-IsoLaws : IsoLaws strokes count_strokes
strokes-IsoLaws = record {
  reads = λ t. ap ok (omega (arith, length-strokes t));
  writes = strokes_empty;
  keeps_order = strokes_order;
}

sqlite-IsJobRepository_example : IsJobRepository (sqlite_stamps strokes count_strokes)
sqlite-IsJobRepository_example = sqlite-IsJobRepository strokes count_strokes strokes-IsoLaws
