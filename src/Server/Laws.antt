-- ===== src/Server/Laws.antt =====
-- What a handler leaves in the cache.
use lorax.Prelude.{
  ℕ, ◌≡◌, refl, arith, false, Option, none, some, List, [], ◌∷◌, ◌==◌, if◌then◌else◌, contains,
  lookup, put, remove, lookup-put, lookup-remove, Option-cases, inl, inr,
}
use lorax.Server.{
  Error, Result, ok, raised, ModelOps, Cache, cache_pop, cache_set, cache_delete, keys, delete_all,
  cache_clear, clear_cache, filter_batch, filtered, filter_popped, generate_from, decode_popped,
  generated, prefill, pop_all, joined, decode,
}

module _ (m : ModelOps) where
  -- Every entry stands under the id of its batch.
  abbrev pub IsKeyed : Cache m → Type 0
  IsKeyed [] = Unit
  IsKeyed ((k, b) ∷ cache) = (k ≡ m.batch_id b) × IsKeyed cache

  put-IsKeyed :
      (b : m.Batch) (cache : Cache m) → IsKeyed cache → IsKeyed (put (m.batch_id b) b cache)
  unfolding put
  put-IsKeyed b [] h = (refl, tt)
  put-IsKeyed b ((k, c) ∷ cache) h = ground (arith, h.0, h.1, put-IsKeyed b cache h.1)

  remove-IsKeyed : (id : ℕ) (cache : Cache m) → IsKeyed cache → IsKeyed (remove id cache)
  unfolding remove
  remove-IsKeyed id [] h = h
  remove-IsKeyed id ((k, c) ∷ cache) h = ground (arith, h.0, h.1, remove-IsKeyed id cache h.1)

  lookup-put_self :
      (b : m.Batch) (cache : Cache m) → lookup (m.batch_id b) (put (m.batch_id b) b cache) ≡ some b
  lookup-put_self b cache = ground (arith, lookup-put (m.batch_id b) (m.batch_id b) b cache)

  -- Whatever the popping meets, ids that were not asked for stay, and those popped are gone.
  pop_all-other :
      (ids : List ℕ) (j : ℕ) (cache : Cache m)
      → contains ids j ≡ false
      → lookup j (pop_all m ids cache).1 ≡ lookup j cache
  unfolding pop_all contains
  pop_all-other [] j cache h = refl
  pop_all-other (id ∷ ids) j cache h = elim (Option-cases (lookup id cache)) [
    | inl e ↦ rw (e, pop_all) (ground (arith, lookup-remove id j cache))
    | inr (b, e) ↦
        rw (e, pop_all)
          (ground (arith, lookup-remove id j cache, pop_all-other ids j (remove id cache)))
  ]

  pop_all-gone :
      (ids : List ℕ) (j : ℕ) (cache : Cache m)
      → lookup j cache ≡ none
      → lookup j (pop_all m ids cache).1 ≡ none
  unfolding pop_all
  pop_all-gone [] j cache h = h
  pop_all-gone (id ∷ ids) j cache h = elim (Option-cases (lookup id cache)) [
    | inl e ↦ rw (e, pop_all) (ground (arith, lookup-remove id j cache))
    | inr (b, e) ↦
        rw (e, pop_all)
          (ground (arith, lookup-remove id j cache, pop_all-gone ids j (remove id cache)))
  ]

  pop_all-IsKeyed :
      (ids : List ℕ) (cache : Cache m) → IsKeyed cache → IsKeyed (pop_all m ids cache).1
  unfolding pop_all
  pop_all-IsKeyed [] cache h = h
  pop_all-IsKeyed (id ∷ ids) cache h = elim (Option-cases (lookup id cache)) [
    | inl e ↦ rw (e, pop_all) (remove-IsKeyed id cache h)
    | inr (b, e) ↦
        rw (e, pop_all) (pop_all-IsKeyed ids (remove id cache) (remove-IsKeyed id cache h))
  ]

  -- The first batch that is asked for is out of the cache, whatever becomes of the others.
  pop_all-first :
      (id : ℕ) (ids : List ℕ) (cache : Cache m) → lookup id (pop_all m (id ∷ ids) cache).1 ≡ none
  unfolding pop_all
  pop_all-first id ids cache =
      let away : lookup id (remove id cache) ≡ none = ground (arith, lookup-remove id id cache) in
      elim (Option-cases (lookup id cache)) [
        | inl e ↦ rw (e, pop_all) away
        | inr (b, e) ↦ rw (e, pop_all) (pop_all-gone ids id (remove id cache) away)
      ]

  -- A Decode that raises, because a batch is missing or the model fails, has lost the first batch
  -- that it was to decode: it is no longer in the cache.
  pub decode_loses :
      (id : ℕ) (ids : List ℕ) (cache : Cache m) (e : Error)
      → (decode m (id ∷ ids) cache).0 ≡ raised e
      → lookup id (decode m (id ∷ ids) cache).1 ≡ none
  unfolding decode cache_set
  decode_loses id ids cache e h = ground (arith, pop_all-first id ids cache, h)

  -- A Decode that succeeds stores the next batch, if there is one, under its own id, and leaves
  -- every batch alone that was not asked for and has not that id.
  pub decode_stores :
      (ids : List ℕ) (cache : Cache m) (g : m.Generations) (next : m.Batch)
      → (decode m ids cache).0 ≡ ok (g, some next)
      → (lookup (m.batch_id next) (decode m ids cache).1 ≡ some next)
        × ((j : ℕ)
            → contains ids j ≡ false
            → (m.batch_id next == j) ≡ false
            → lookup j (decode m ids cache).1 ≡ lookup j cache)
  unfolding decode cache_set
  decode_stores [] cache g next h = ground arith
  decode_stores (id ∷ ids) cache g next h =
      let popped = (pop_all m (id ∷ ids) cache).1 in
      (
        ground (arith, h, lookup-put_self next popped),
        λ j other ne. ground (
          arith,
          h,
          ne,
          lookup-put (m.batch_id next) j next popped,
          pop_all-other (id ∷ ids) j cache other,
        ),
      )

  -- The requests to the service that change the cache.
  pub data Call : Type 0 where
    clears : Option ℕ → Call
    filters : ℕ → List ℕ → Call
    prefills : m.BatchPb → Call
    decodes : List ℕ → Call

  step : Call → Cache m → Cache m
  step (clears id) cache = clear_cache m id cache
  step (filters id request_ids) cache = (filter_batch m id request_ids cache).1
  step (prefills pb) cache = (prefill m pb cache).1
  step (decodes ids) cache = (decode m ids cache).1

  pub serve : List Call → Cache m → Cache m
  unfolding step
  serve [] cache = cache
  serve (c ∷ calls) cache = serve calls (step c cache)

  delete_all-IsKeyed :
      (ks : List ℕ) (cache : Cache m) → IsKeyed cache → IsKeyed (delete_all m ks cache)
  unfolding delete_all
  delete_all-IsKeyed [] cache h = h
  delete_all-IsKeyed (k ∷ ks) cache h =
      delete_all-IsKeyed ks (remove k cache) (remove-IsKeyed k cache h)

  cache_set-IsKeyed :
      (o : Option m.Batch) (cache : Cache m) → IsKeyed cache → IsKeyed (cache_set m o cache)
  unfolding cache_set
  cache_set-IsKeyed none cache h = h
  cache_set-IsKeyed (some b) cache h = put-IsKeyed b cache h

  generated-IsKeyed :
      (o : Option (m.Generations × Option m.Batch)) (cache : Cache m)
      → IsKeyed cache
      → IsKeyed (generated m o cache).1
  generated-IsKeyed none cache h = h
  generated-IsKeyed (some (g, next)) cache h = cache_set-IsKeyed next cache h

  generate_from-IsKeyed :
      (o : Option m.Batch) (cache : Cache m) → IsKeyed cache → IsKeyed (generate_from m o cache).1
  generate_from-IsKeyed none cache h = h
  generate_from-IsKeyed (some b) cache h = generated-IsKeyed (m.generate_token b) cache h

  decode_popped-IsKeyed :
      (r : Result (List m.Batch)) (cache : Cache m)
      → IsKeyed cache
      → IsKeyed (decode_popped m (r, cache)).1
  decode_popped-IsKeyed (raised e) cache h = h
  decode_popped-IsKeyed (ok []) cache h = h
  decode_popped-IsKeyed (ok (b ∷ bs)) cache h = generate_from-IsKeyed (joined m (b ∷ bs)) cache h

  filtered-IsKeyed :
      (o : Option m.Batch) (cache : Cache m) → IsKeyed cache → IsKeyed (filtered m o cache).1
  filtered-IsKeyed none cache h = h
  filtered-IsKeyed (some b) cache h = cache_set-IsKeyed (some b) cache h

  filter_popped-IsKeyed :
      (id : ℕ) (request_ids : List ℕ) (o : Option m.Batch) (cache : Cache m)
      → IsKeyed cache
      → IsKeyed (filter_popped m id request_ids (o, cache)).1
  filter_popped-IsKeyed id request_ids none cache h = h
  filter_popped-IsKeyed id request_ids (some b) cache h =
      filtered-IsKeyed (m.filter b request_ids) cache h

  step-IsKeyed : (c : Call) (cache : Cache m) → IsKeyed cache → IsKeyed (step c cache)
  unfolding step clear_cache cache_delete filter_batch prefill decode
  step-IsKeyed (clears (some id)) cache h = remove-IsKeyed id cache h
  step-IsKeyed (clears none) cache h =
      unfold cache_clear in delete_all-IsKeyed (keys m cache) cache h
  step-IsKeyed (filters id request_ids) cache h =
      filter_popped-IsKeyed id request_ids (lookup id cache) (remove id cache)
        (remove-IsKeyed id cache h)
  step-IsKeyed (prefills pb) cache h = generate_from-IsKeyed (m.from_pb pb) cache h
  step-IsKeyed (decodes []) cache h = h
  step-IsKeyed (decodes (id ∷ ids)) cache h =
      decode_popped-IsKeyed (pop_all m (id ∷ ids) cache).0 (pop_all m (id ∷ ids) cache).1
        (pop_all-IsKeyed (id ∷ ids) cache h)

  serve-IsKeyed_from :
      (calls : List Call) (cache : Cache m) → IsKeyed cache → IsKeyed (serve calls cache)
  unfolding serve
  serve-IsKeyed_from [] cache h = h
  serve-IsKeyed_from (c ∷ calls) cache h =
      serve-IsKeyed_from calls (step c cache) (step-IsKeyed c cache h)

  -- After any requests, failed ones included, every batch in the cache stands under its own id.
  pub serve-IsKeyed : (calls : List Call) → IsKeyed (serve calls [])
  serve-IsKeyed calls = serve-IsKeyed_from calls [] tt

  lookup-delete_all :
      (ks : List ℕ) (j : ℕ) (cache : Cache m)
      → lookup j (delete_all m ks cache) ≡ (if contains ks j then none else lookup j cache)
  unfolding delete_all contains cache_pop
  lookup-delete_all [] j cache = refl
  lookup-delete_all (k ∷ ks) j cache =
      ground (arith, lookup-delete_all ks j (remove k cache), lookup-remove k j cache)

  lookup-keys :
      (j : ℕ) (cache : Cache m) → contains (keys m cache) j ≡ false → lookup j cache ≡ none
  unfolding contains keys lookup
  lookup-keys j [] h = refl
  lookup-keys j ((k, b) ∷ cache) h = ground (arith, lookup-keys j cache)

  -- ClearCache without an id leaves no batch; with an id it takes away that batch and no other.
  lookup-clear_cache :
      (id : Option ℕ) (j : ℕ) (cache : Cache m)
      → lookup j (clear_cache m id cache)
        ≡ (elim id [ none ↦ none | some k ↦ if k == j then none else lookup j cache ])
  unfolding clear_cache cache_clear cache_delete cache_pop
  lookup-clear_cache (some k) j cache = lookup-remove k j cache
  lookup-clear_cache none j cache =
      ground (arith, lookup-delete_all (keys m cache) j cache, lookup-keys j cache)
