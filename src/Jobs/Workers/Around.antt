-- ===== src/Jobs/Workers/Around.antt =====
-- Taking a value out of the middle of a list, and moving one, for the lists of ids and of jobs of
-- infrastructure/services/pipeline_job_runner.py.
use marketplace_pipeline.Base.{
  ◌+◌, ◌≡◌, refl, ap, true, not, ◌&&◌, List, [], ◌∷◌, ◌++◌, length, Text, Text-Eq, ◌==◌,
  text_eq_iff, contains, contains-append, Distinct, All, arith,
}
use marketplace_pipeline.Domain.Entities.{PipelineJob}
use marketplace_pipeline.Jobs.Workers.Placed.{ids, is_held_job}

-- A value that is taken out of the middle.
pub contains_around :
    (id a : Text) (before after : List Text)
    → Distinct (before ++ a ∷ after)
    → contains id (before ++ after) ≡ (contains id (before ++ a ∷ after) && not (a == id))
unfolding contains
contains_around id a [] after d = ground (arith, text_eq_iff a id, d.0)
contains_around id a (b ∷ before) after d = ground (
  arith,
  contains_around id a before after d.1,
  text_eq_iff a id,
  text_eq_iff b id,
  d.0,
  text_eq_iff a b,
  contains-append b before (a ∷ after),
)

pub Distinct-around :
    (a : Text) (before after : List Text)
    → Distinct (before ++ a ∷ after)
    → Distinct (before ++ after)
unfolding contains
Distinct-around a [] after d = d.1
Distinct-around a (b ∷ before) after d =
    (ground (arith, contains_around b a before after d.1, d.0), Distinct-around a before after d.1)

-- A value that comes forward within a list leaves it with the same values.
pub contains-moved :
    (id a : Text) (front before after : List Text)
    → contains id (front ++ (before ++ a ∷ after)) ≡ contains id (front ++ a ∷ (before ++ after))
unfolding contains
contains-moved id a front before after = ground (
  arith,
  contains-append id front (before ++ a ∷ after),
  contains-append id before (a ∷ after),
  contains-append id front (a ∷ (before ++ after)),
  contains-append id before after,
)

pub Distinct-moved :
    (a : Text) (front before after : List Text)
    → Distinct (front ++ (before ++ a ∷ after))
    → Distinct (front ++ a ∷ (before ++ after))
unfolding contains
Distinct-moved a [] before after d = (
  ground (arith, contains_around a a before after d, text_eq_iff a a),
  Distinct-around a before after d,
)
Distinct-moved a (f ∷ front) before after d = (
  ground (arith, contains-moved f a front before after, d.0),
  Distinct-moved a front before after d.1,
)

abbrev pub AllHeld : List PipelineJob → Type 0
AllHeld held = All (λ job. is_held_job job ≡ true) held

pub All_around :
    (before after : List PipelineJob) (job : PipelineJob)
    → AllHeld (before ++ job ∷ after)
    → (is_held_job job ≡ true) × AllHeld (before ++ after)
All_around [] after job h = h
All_around (b ∷ before) after job h =
    let (found, rest) = All_around before after job h.1 in (found, (h.0, rest))

pub map-around :
    (before after : List PipelineJob) (job : PipelineJob)
    → (ids (before ++ job ∷ after) ≡ ids before ++ job.id ∷ ids after)
      × (ids (before ++ after) ≡ ids before ++ ids after)
map-around [] after job = (refl, refl)
map-around (b ∷ before) after job =
    let (around, without) = map-around before after job in
    (ap (◌∷◌ b.id) around, ap (◌∷◌ b.id) without)

pub length-around :
    {A : Type 0} (before after : List A) (a : A)
    → length (before ++ a ∷ after) ≡ 1 + length (before ++ after)
length-around [] after a = ground arith
length-around (b ∷ before) after a = ground (arith, length-around before after a)
