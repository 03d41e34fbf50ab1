-- ===== src/Tests/Kernels.antt =====
-- The LoRA weights of a batch of four tokens, of which the adapters 1 and 2 have the ranks 8 and 16
-- and the adapter 0 has none, the sizes that are padded and cut to, and requests on a model whose
-- adapter 5 is preloaded.
use lorax.Prelude.{
  suc, ℕ, ◌*◌, ◌≤◌, ◌≡◌, refl, arith, true, false, ◌==◌, if◌then◌else◌, Option, none, some, List,
  [], ◌∷◌, lookup, get_elem?, contains,
}
use lorax.Flash.{AdapterBatchMetadata}
use lorax.Flash.Filter.{maximum}
use lorax.Lora.{
  LoraWeights, AdapterWeights, lora, with_lora, other, BatchLoraWeights, lora_only, convert_lora,
  segment_ranks,
}
use lorax.Lora.Load.{load}
use lorax.Lora.Decode.{IsCovered}
use lorax.Lora.Applied.{AppliedOnce, SkippedByAll}
use lorax.Lora.Step.{load-AppliedOnce}
use lorax.Lora.{RankSegments}
use lorax.Lora.Prefill.{Reads}
use lorax.Lora.Prompt.{load-Reads}
use lorax.Lora.Heads.{AreWithin}
use lorax.Sizes.{cached_batch_sizes, get_cached_batch_size, range_or_all}
use lorax.Sizes.Graphs.{get_cached_batch_size-least}
use lorax.Sizes.Shards.{gathered, gathered-range}
use lorax.Adapters.{Model, Loaded, ok, raised, load_error}
use lorax.Adapters.Requests.{AdapterCall, loads, offloads, serve_adapters, AdapterSource}
use lorax.Adapters.Preloaded.{IsKept}
use lorax.Adapters.Calls.{serve_adapters-IsKept}

-- Tensors are numbered, and lie at four times their number.
abbrev four_times : ℕ → ℕ
four_times t = 4 * t

abbrev weights_of_one : LoraWeights ℕ ℕ
weights_of_one = record {
  lora_a_r = 8;
  weights_a = 10;
  weights_b = 11;
  weights_a_t = 12;
  weights_b_t = 13;
  adapter_config = 1;
}

abbrev weights_of_two : LoraWeights ℕ ℕ
weights_of_two = record {
  lora_a_r = 16;
  weights_a = 20;
  weights_b = 21;
  weights_a_t = 22;
  weights_b_t = 23;
  adapter_config = 2;
}

abbrev three_adapters : List (ℕ × AdapterWeights ℕ ℕ)
three_adapters = (1, lora weights_of_one) ∷ (2, with_lora (some weights_of_two)) ∷ (3, other) ∷ []

abbrev four_tokens : AdapterBatchMetadata
four_tokens = record {
  adapter_indices = 1 ∷ 2 ∷ 0 ∷ 1 ∷ [];
  adapter_set = 0 ∷ 1 ∷ 2 ∷ [];
  adapter_segments = 0 ∷ 1 ∷ 2 ∷ 3 ∷ 4 ∷ [];
  segment_indices = 1 ∷ 2 ∷ 0 ∷ 1 ∷ [];
}

four_tokens-IsCovered : IsCovered four_tokens
unfolding IsCovered
four_tokens-IsCovered t a h = (t, h)

load-AppliedOnce_example :
    (batch : BatchLoraWeights ℕ ℕ) × (load four_times 0 three_adapters four_tokens false none
      ≡ some (some batch))
    × ((t a : ℕ)
        → get_elem? (1 ∷ 2 ∷ 0 ∷ 1 ∷ []) t ≡ some a
        → (lookup a (lora_only three_adapters) ≡ none → SkippedByAll batch.rank_data t)
          × ((w : LoraWeights ℕ ℕ)
              → lookup a (lora_only three_adapters) ≡ some w
              → AppliedOnce batch.rank_data w.lora_a_r t (4 * w.weights_a_t) (4 * w.weights_b_t)))
unfolding lora_only convert_lora segment_ranks lookup maximum
load-AppliedOnce_example =
    load-AppliedOnce four_times 0 three_adapters four_tokens 1 2 weights_of_two
      four_tokens-IsCovered (omega arith) refl refl

-- Heads at the rows 2 and 4 of a first segment of five rows, and at row 8 of one up to row 9.
two_segments-AreWithin : AreWithin 0 (5 ∷ 9 ∷ []) ((2 ∷ 4 ∷ []) ∷ (8 ∷ []) ∷ [])
unfolding AreWithin
two_segments-AreWithin = ground arith

get_cached_batch_size-least_example :
    (contains cached_batch_sizes (get_cached_batch_size 33) ≡ true)
    × (33 ≤ get_cached_batch_size 33)
    × ((m : ℕ) → contains cached_batch_sizes m ≡ true → 33 ≤ m → get_cached_batch_size 33 ≤ m)
get_cached_batch_size-least_example = get_cached_batch_size-least 33 (omega arith) (omega arith)

abbrev six_rows : List ℕ
six_rows = 10 ∷ 11 ∷ 12 ∷ 13 ∷ 14 ∷ 15 ∷ []

-- The range of four rows from row 1 on, in two shards.
gathered-range_example : gathered six_rows (some (1, 4)) 2 2 ≡ some (11 ∷ 12 ∷ 13 ∷ 14 ∷ [])
unfolding range_or_all
gathered-range_example = gathered-range six_rows (some (1, 4)) 2 (omega arith) refl

abbrev five_preloaded : Model ℕ ℕ
five_preloaded = record {
  supports_adapter_loading = true;
  dynamic_adapter_loading_enabled = true;
  adapter_layers = 0 ∷ 1 ∷ [];
  layer_to_adapter_weights = (0, (5, 6) ∷ []) ∷ [];
  loaded_adapters = 5 ∷ [];
  preloaded_adapter_indices = 5 ∷ [];
  tokenizers = [];
}

-- Layer 1 of adapter 7 fails to load.
abbrev merged_adapters : List ℕ → AdapterSource → ℕ → Option (Loaded ℕ ℕ)
merged_adapters ids source idx = some (record {
  batched = λ layer. if layer == idx then raised load_error else ok (some idx);
  tokenizer = none;
})

abbrev three_requests : List AdapterCall
three_requests =
    loads (record { adapter_ids = 3 ∷ []; adapter_source = 0; adapter_index = 1 })
    ∷ offloads (record { adapter_ids = 9 ∷ []; adapter_source = 1; adapter_index = 5 })
    ∷ loads (record { adapter_ids = 4 ∷ []; adapter_source = 3; adapter_index = 2 })
    ∷ []

serve_adapters-IsKept_example :
    IsKept 5 five_preloaded
      (serve_adapters 0 (λ id. some id) merged_adapters three_requests five_preloaded)
unfolding contains
serve_adapters-IsKept_example =
    serve_adapters-IsKept 0 (λ id. some id) merged_adapters 5 three_requests five_preloaded refl
      refl

load-Reads_example :
    (batch : BatchLoraWeights ℕ ℕ) × (load four_times 0 three_adapters four_tokens true none
      ≡ some (some batch))
    × ((i a start end : ℕ) (w : LoraWeights ℕ ℕ)
        → get_elem? (1 ∷ 2 ∷ 0 ∷ 1 ∷ []) i ≡ some a
        → get_elem? (0 ∷ 1 ∷ 2 ∷ 3 ∷ 4 ∷ []) i ≡ some start
        → get_elem? (0 ∷ 1 ∷ 2 ∷ 3 ∷ 4 ∷ []) (suc i) ≡ some end
        → lookup a (lora_only three_adapters) ≡ some w
        → (s : RankSegments) × (k : ℕ) × (lookup w.lora_a_r batch.rank_data ≡ some s)
          × Reads s k start end (4 * w.weights_a) (4 * w.weights_b))
unfolding lora_only convert_lora lookup
load-Reads_example =
    load-Reads four_times 0 three_adapters four_tokens 1 2 weights_of_two refl refl refl
