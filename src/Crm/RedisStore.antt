-- ===== src/Crm/RedisStore.antt =====
-- infrastructure/adapters/crm/redis_idempotency_store.py. The state is what Redis holds at the keys
-- of the store; `validate` and `dump` are pydantic's.
use marketplace_pipeline.Base.{
  ◌≡◌, refl, Bool, true, Option, none, some, [], ◌∷◌, ◌++◌, Text, Text-Eq, text_eq, ◌==◌, codes,
  Dict, lookup, insert, lookup-insert, if◌then◌else◌, arith,
}
use marketplace_pipeline.Crm.Record.{IdempotencyRecord, IdempotencyStore, IsEnabledStore}

unfoldable pub key_prefix : Text
key_prefix = codes "crm:idempotency:"

abbrev pub Redis : Type 0
Redis = Dict Text Text

module _ (validate : Text → Option IdempotencyRecord) (dump : IdempotencyRecord → Text)
    (enabled : Bool) where
  abbrev validated : Option Text → Option IdempotencyRecord
  validated none = none
  validated (some raw) = validate raw

  unfoldable pub get : Text → Redis → Option IdempotencyRecord × Redis
  get key redis = (if enabled then validated (lookup (key_prefix ++ key) redis) else none, redis)

  unfoldable pub put : Text → IdempotencyRecord → Redis → Redis
  put key r redis = if enabled then insert (key_prefix ++ key) (dump r) redis else redis

  unfoldable pub save : Redis → Redis
  save redis = redis

  abbrev pub redis_store : IdempotencyStore Redis
  redis_store = record { get = get; put = put; save = save }

text_eq-append : (p s t : Text) → ((p ++ s) == (p ++ t)) ≡ (s == t)
unfolding text_eq
text_eq-append [] s t = refl
text_eq-append (c ∷ p) s t = ground (arith, text_eq-append p s t)

-- An enabled Redis store holds the records that validate, if pydantic reads back what it wrote.
-- Reads and `save` leave them alone, and `put` sets the record of its key and no other.
pub redis_store-IsEnabledStore :
    (validate : Text → Option IdempotencyRecord) (dump : IdempotencyRecord → Text)
    → ((r : IdempotencyRecord) → validate (dump r) ≡ some r)
    → IsEnabledStore (redis_store validate dump true)
unfolding get put save
redis_store-IsEnabledStore validate dump reads_back = record {
  view = λ s k. (get validate dump true k s).0;
  get-view = λ k s. refl;
  view-get = λ k j s. refl;
  view-put = λ k j r s. ground (
    arith,
    reads_back r,
    lookup-insert (key_prefix ++ k) (key_prefix ++ j) (dump r) s,
    text_eq-append key_prefix k j,
  );
  view-save = λ j s. refl;
}
