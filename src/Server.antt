-- ===== src/Server.antt =====
-- server/lorax_server/cache.py and the handlers of `LoraxService` in
-- server/lorax_server/server.py that change the cache: what each leaves there, errors included.
pub mod Laws
use mathlib.Core.Option
use lorax.Prelude.{
  ℕ, Bool, true, false, Option, none, some, List, [], ◌∷◌, ◌++◌, lookup, put, remove, ◌>>=◌,
}

pub data Error : Type 0 where
  not_found : ℕ → Error
  no_batches all_empty model_error : Error

pub data Result (A : Type 0) : Type 0 where
  ok : A → Result A
  raised : Error → Result A

-- The batches and what the model does with them: the model's class implements it.
-- `none` is an exception.
pub record ModelOps : Type 1 where
  pub Batch : Type 0
  pub BatchPb : Type 0
  pub Generations : Type 0
  pub batch_id : Batch → ℕ
  pub from_pb : BatchPb → Option Batch
  pub filter : Batch → List ℕ → Option Batch
  pub concatenate : List Batch → Option Batch
  pub generate_token : Batch → Option (Generations × Option Batch)

module _ (m : ModelOps) where
  open m use {Batch, BatchPb, Generations, batch_id}

  abbrev pub Cache : Type 0
  Cache = List (ℕ × Batch)

  pub cache_pop : ℕ → Cache → Option Batch × Cache
  cache_pop id cache = (lookup id cache, remove id cache)

  pub cache_set : Option Batch → Cache → Cache
  cache_set none cache = cache
  cache_set (some entry) cache = put (batch_id entry) entry cache

  pub cache_delete : ℕ → Cache → Cache
  unfolding cache_pop
  cache_delete id cache = (cache_pop id cache).1

  pub keys : Cache → List ℕ
  keys [] = []
  keys ((k, b) ∷ cache) = k ∷ keys cache

  pub delete_all : List ℕ → Cache → Cache
  unfolding cache_delete
  delete_all [] cache = cache
  delete_all (k ∷ ks) cache = delete_all ks (cache_delete k cache)

  pub cache_clear : Cache → Cache
  unfolding delete_all keys
  cache_clear cache = delete_all (keys cache) cache

  -- `request.id`, if the request has it.
  pub clear_cache : Option ℕ → Cache → Cache
  unfolding cache_delete cache_clear
  clear_cache (some id) cache = cache_delete id cache
  clear_cache none cache = cache_clear cache

  abbrev pub filtered : Option Batch → Cache → Result Batch × Cache
  filtered none cache = (raised model_error, cache)
  filtered (some b) cache = (ok b, cache_set (some b) cache)

  abbrev pub filter_popped : ℕ → List ℕ → Option Batch × Cache → Result Batch × Cache
  filter_popped id request_ids (none, cache) = (raised (not_found id), cache)
  filter_popped id request_ids (some b, cache) = filtered (m.filter b request_ids) cache

  pub filter_batch : ℕ → List ℕ → Cache → Result Batch × Cache
  unfolding cache_pop cache_set
  filter_batch id request_ids cache = filter_popped id request_ids (cache_pop id cache)

  -- The end of Prefill and of Decode.
  abbrev pub generated :
      Option (Generations × Option Batch) → Cache → Result (Generations × Option Batch) × Cache
  generated none cache = (raised model_error, cache)
  generated (some (generations, next)) cache = (ok (generations, next), cache_set next cache)

  abbrev pub generate_from : Option Batch → Cache → Result (Generations × Option Batch) × Cache
  generate_from none cache = (raised model_error, cache)
  generate_from (some b) cache = generated (m.generate_token b) cache

  pub prefill : BatchPb → Cache → Result (Generations × Option Batch) × Cache
  unfolding cache_set
  prefill pb cache = generate_from (m.from_pb pb) cache

  -- The loop of Decode: pops each batch in turn, and raises at the first that is missing.
  unfoldable pub pop_all : List ℕ → Cache → Result (List Batch) × Cache
  pop_all [] cache = (ok [], cache)
  pop_all (id ∷ ids) cache = elim (lookup id cache) [
    | none ↦ (raised (not_found id), remove id cache)
    | some b ↦
        let (popped, cache') = pop_all ids (remove id cache) in
        (elim popped [ ok bs ↦ ok (b ∷ bs) | raised e ↦ raised e ], cache')
  ]

  abbrev pub joined : List Batch → Option Batch
  joined [] = none
  joined (b ∷ []) = some b
  joined (b ∷ c ∷ bs) = m.concatenate (b ∷ c ∷ bs)

  abbrev pub decode_popped :
      Result (List Batch) × Cache → Result (Generations × Option Batch) × Cache
  decode_popped (raised e, cache) = (raised e, cache)
  decode_popped (ok [], cache) = (raised all_empty, cache)
  decode_popped (ok (b ∷ bs), cache) = generate_from (joined (b ∷ bs)) cache

  unfoldable pub decode : List ℕ → Cache → Result (Generations × Option Batch) × Cache
  unfolding cache_set
  decode [] cache = (raised no_batches, cache)
  decode (id ∷ ids) cache = decode_popped (pop_all (id ∷ ids) cache)
