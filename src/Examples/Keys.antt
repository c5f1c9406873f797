-- ===== src/Examples/Keys.antt =====
-- A key of a request in memory, and in a Redis that keeps its values with the times of their ends.
use marketplace_pipeline.Base.{
  ℕ, ◌+◌, ◌≡◌, refl, Bool, true, false, Option, none, some, is_some, List, [], ◌∷◌, Text, Text-Eq,
  ◌==◌, codes, ltb, lookup, if◌then◌else◌, filter, arith,
}
use marketplace_pipeline.Jobs.Keys.{KeyStore, get_key, reserve}
use marketplace_pipeline.Jobs.Keys.Port.{
  memory_store, RedisKeys, RedisKeysLaws, redis_get, redis_reserve, redis_store,
}
use marketplace_pipeline.Jobs.Keys.Port.Exclusive.{
  Call, gets, reserves, do_calls, memory_reserved_once, redis_reserved_once,
}

abbrev key : Text
key = codes "k"

abbrev calls : List Call
calls = gets 11 (codes "l") ∷ reserves 12 key (codes "second") ∷ []

abbrev store : KeyStore
store = record { ttl = 10; entries = [] }

memory_reserved_once_example :
    let t = do_calls memory_store calls (reserve 10 key (codes "first") store).1 in
    ((get_key 20 key t).0 ≡ some (codes "first")) × ((reserve 20 key (codes "third") t).0 ≡ false)
unfolding reserve lookup filter
memory_reserved_once_example =
    memory_reserved_once 10 20 key (codes "first") (codes "third") calls store tt refl
      (omega arith, (omega arith, omega arith)) (omega arith)

-- What Redis holds: a value and its last tick, by key.
abbrev Values : Type 0
Values = Text → Option (Text × ℕ)

abbrev alive : ℕ → Option (Text × ℕ) → Option Text
alive now none = none
alive now (some (text, last)) = if ltb last now then none else some text

abbrev set_nx_ex : ℕ → Text → Text → ℕ → Values → Bool × Values
set_nx_ex now name text ttl r =
    if is_some (alive now (r name))
    then (false, r)
    else (true, λ other. if name == other then some (text, now + ttl) else r other)

abbrev values : RedisKeys Values
values = record { get = λ now name r. alive now (r name); set_nx_ex = set_nx_ex }

values-RedisKeysLaws : RedisKeysLaws values
values-RedisKeysLaws = record {
  nx_law = λ now ttl name text r. ground arith;
  ex_law = λ now later ttl name text other r le. ground arith;
}

redis_reserved_once_example :
    let t =
      do_calls
        (redis_store values 10)
        calls
        (redis_reserve values 10 10 key (codes "first") (λ name. none)).1 in
    ((redis_get values 10 20 key t).0 ≡ some (codes "first"))
    × ((redis_reserve values 10 20 key (codes "third") t).0 ≡ false)
unfolding redis_reserve
redis_reserved_once_example =
    redis_reserved_once values 10 values-RedisKeysLaws 10 20 key (codes "first") (codes "third")
      calls (λ name. none) refl (omega arith, (omega arith, omega arith)) (omega arith)
