-- ===== src/Tests/Service.antt =====
-- Requests to the service on a model whose batches are pairs of an id and a count, and the loading
-- of adapters into a model of two layers. A step whose count is 0 fails.
use lorax.Prelude.{
  arith, add, ℕ, zero, suc, ◌+◌, ◌≡◌, ◌==◌, ◌&&◌, ◌||◌, not, if◌then◌else◌, refl, true, false,
  Option, none, some, List, [], ◌∷◌, lookup, contains, remove,
}
use lorax.Server.{not_found, ModelOps, pop_all, decode}
use lorax.Server.Laws.{
  IsKeyed, Call, filters, prefills, decodes, serve, decode_loses, decode_stores, serve-IsKeyed,
}
use lorax.Adapters.{
  add_adapter, ok, raised, load_error, load_layers, Model, Loaded, load_adapter, offload_adapter,
}
use lorax.Adapters.Weights.{weights_at, override}
use lorax.Adapters.Laws.{
  offload_adapter-load_adapter, load_adapter-weights, offload_adapter-weights, load_adapter_leaks,
}

abbrev joined_pairs : List (ℕ × ℕ) → Option (ℕ × ℕ)
joined_pairs [] = none
joined_pairs ((i, n) ∷ pairs) = some (i, n + 1)

abbrev counted_down : ℕ × ℕ → Option (ℕ × Option (ℕ × ℕ))
counted_down (i, zero) = none
counted_down (i, suc n) = some (n, some (i, n))

abbrev counter : ModelOps
counter = record {
  Batch = ℕ × ℕ;
  BatchPb = ℕ × ℕ;
  Generations = ℕ;
  batch_id = λ b. b.0;
  from_pb = λ b. some b;
  filter = λ b ids. some b;
  concatenate = joined_pairs;
  generate_token = counted_down;
}

abbrev two_batches : List (ℕ × (ℕ × ℕ))
two_batches = (3, (3, 5)) ∷ (4, (4, 2)) ∷ []

decode_loses_example : lookup 3 (decode counter (3 ∷ 8 ∷ []) two_batches).1 ≡ none
unfolding decode pop_all lookup remove
decode_loses_example = decode_loses counter 3 (8 ∷ []) two_batches (not_found 8) refl

decode_stores_example :
    (lookup 4 (decode counter (4 ∷ []) two_batches).1 ≡ some (4, 1))
    × ((j : ℕ)
        → contains (4 ∷ []) j ≡ false
        → (4 == j) ≡ false
        → lookup j (decode counter (4 ∷ []) two_batches).1 ≡ lookup j two_batches)
unfolding decode pop_all lookup remove
decode_stores_example = decode_stores counter (4 ∷ []) two_batches 1 (4, 1) refl

abbrev four_calls : List (Call counter)
four_calls = prefills (3, 5) ∷ prefills (4, 1) ∷ decodes (3 ∷ 4 ∷ []) ∷ filters 3 [] ∷ []

serve-IsKeyed_example : IsKeyed counter (serve counter four_calls [])
serve-IsKeyed_example = serve-IsKeyed counter four_calls

-- Adapter 1 has weights 7 for layer 0, and none for layer 1.
abbrev seven : Loaded ℕ ℕ
seven = record {
  batched = λ layer. if layer == 0 then ok (some 7) else ok none;
  tokenizer = some 2;
}

abbrev two_layers : Model ℕ ℕ
two_layers = record {
  supports_adapter_loading = true;
  dynamic_adapter_loading_enabled = true;
  adapter_layers = 0 ∷ 1 ∷ [];
  layer_to_adapter_weights = (0, (5, 6) ∷ []) ∷ [];
  loaded_adapters = 5 ∷ [];
  preloaded_adapter_indices = [];
  tokenizers = [];
}

load_adapter-weights_example :
    ((layer j : ℕ)
      → weights_at (load_adapter (some seven) 1 true two_layers).1 layer j ≡ (
          if contains (0 ∷ 1 ∷ []) layer && 1 == j
          then override (seven.batched layer) (weights_at two_layers layer j)
          else weights_at two_layers layer j))
    × ((j : ℕ)
        → contains (load_adapter (some seven) 1 true two_layers).1.loaded_adapters j
          ≡ (1 == j || contains (5 ∷ []) j))
unfolding load_adapter load_layers contains
load_adapter-weights_example = load_adapter-weights seven 1 true two_layers refl refl

offload_adapter-weights_example :
    ((layer j : ℕ)
      → weights_at (offload_adapter 5 two_layers).1 layer j
        ≡ (if contains (0 ∷ 1 ∷ []) layer && 5 == j then none else weights_at two_layers layer j))
    × ((j : ℕ)
        → contains (offload_adapter 5 two_layers).1.loaded_adapters j
          ≡ (not (5 == j) && contains (5 ∷ []) j))
    × ((offload_adapter 5 two_layers).1.tokenizers ≡ [])
unfolding offload_adapter contains
offload_adapter-weights_example = offload_adapter-weights 5 two_layers refl

-- The load of layer 1 fails.
abbrev half_seven : Loaded ℕ ℕ
half_seven = record {
  batched = λ layer. if layer == 0 then ok (some 7) else raised load_error;
  tokenizer = none;
}

load_adapter_leaks_example :
    ((load_adapter (some half_seven) 1 true two_layers).0 ≡ raised load_error)
    × (weights_at (load_adapter (some half_seven) 1 true two_layers).1 0 1 ≡ some 7)
    × (contains (load_adapter (some half_seven) 1 true two_layers).1.loaded_adapters 1 ≡ false)
unfolding load_layers contains
load_adapter_leaks_example =
    load_adapter_leaks half_seven 1 true two_layers 0 (1 ∷ []) 7 load_error refl refl refl refl refl
      refl

no_weights_yet : (layer : ℕ) → weights_at two_layers layer 1 ≡ none
unfolding lookup
no_weights_yet layer = ground arith

offload_adapter-load_adapter_example :
    ((layer j : ℕ)
      → weights_at (offload_adapter 1 (load_adapter (some seven) 1 true two_layers).1).1 layer j
        ≡ weights_at two_layers layer j)
    × ((j : ℕ)
        → contains
            (offload_adapter 1 (load_adapter (some seven) 1 true two_layers).1).1.loaded_adapters
            j
          ≡ contains (5 ∷ []) j)
unfolding load_adapter load_layers add_adapter offload_adapter contains add
offload_adapter-load_adapter_example =
    offload_adapter-load_adapter seven 1 true two_layers refl no_weights_yet refl refl
