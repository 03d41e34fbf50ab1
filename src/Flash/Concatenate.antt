-- ===== src/Flash/Concatenate.antt =====
-- `FlashCausalLMBatch.concatenate`: the batches that one Decode continues together.
pub mod Slots
pub mod Segments
use mathlib.Core.List.{flatten}
use mathlib.Core.Option
use lorax.Prelude.{
  ℕ, zero, suc, ◌+◌, ◌-◌, max, Bool, true, false, ◌&&◌, Option, none, some, List, [], ◌∷◌, ◌++◌,
  map, ◌==◌, if◌then◌else◌, length, replicate, take, put, add, ◌>>=◌,
}
use lorax.Segments.{concat_all, build, empty_builder}
use lorax.Tokens.Stopping.{StoppingCriteria}
use lorax.Tokens.Chooser.{FloatTests, Chooser, new, from_pb}
use lorax.Flash.{Request, AdapterBatchMetadata, FlashCausalLmBatch}

-- `tensor[start:end] = xs` for a slice of size `n`; one entry is broadcast, `none` is a
-- RuntimeError.
abbrev pub assign {ℓ} : {A : Type ℓ} → ℕ → List A → Option (List A)
assign n [] = if n == 0 then some [] else none
assign n (x ∷ []) = some (replicate n x)
assign n (x ∷ y ∷ xs) = if length (x ∷ y ∷ xs) == n then some (x ∷ y ∷ xs) else none

-- A row of zeros of `width`, over which a row is written.
unfoldable pub pad_row : ℕ → List ℕ → List ℕ
pad_row width row = take width row ++ replicate (width - length row) 0

-- `b.speculative_ids.shape[1]`
abbrev pub width_of : Option (List (List ℕ)) → ℕ
width_of none = 0
width_of (some []) = 0
width_of (some (row ∷ rows)) = length row

unfoldable pub max_needs : ℕ → List ℕ → List StoppingCriteria → ℕ
max_needs width [] ss = 0
max_needs width (n ∷ ns) [] = 0
max_needs width (n ∷ ns) (s ∷ ss) =
    max (n + s.max_new_tokens + width - s.current_tokens) (max_needs width ns ss)

-- `requests_idx_mapping[k] = v + cumulative_batch_size`
unfoldable pub offset_mapping : ℕ → List (ℕ × ℕ) → List (ℕ × ℕ) → List (ℕ × ℕ)
offset_mapping total [] mapping = mapping
offset_mapping total ((k, v) ∷ entries) mapping =
    offset_mapping total entries (put k (v + total) mapping)

unfoldable pub union : List ℕ → List ℕ → List ℕ
union [] s = s
union (x ∷ xs) s = union xs (add x s)

-- The `max` over no request is a ValueError.
abbrev pub needs_of : List ℕ → List StoppingCriteria → ℕ → Option ℕ
needs_of [] ss width = none
needs_of (n ∷ ns) [] width = none
needs_of (n ∷ ns) (s ∷ ss) width = some (max_needs width (n ∷ ns) (s ∷ ss))

-- `torch.cat` of rows, which refuses rows of another width.
pub has_width : ℕ → List (List ℕ) → Bool
has_width width [] = true
has_width width (row ∷ rows) = length row == width && has_width width rows

-- The parts of a joined batch whose computation may raise.
pub record Tensors : Type 0 where
  pub input_ids : List ℕ
  pub position_ids : List ℕ
  pub slot_indices : List ℕ
  pub input_lengths_tensor : List ℕ
  pub all_input_ids_tensor : List (List ℕ)
  pub block_tables_tensor : List (List ℕ)
  pub speculative_ids : Option (List (List ℕ))
  pub adapter_segments : List ℕ
  pub segment_indices : List ℕ

module _ {F Schema : Type 0} where
  abbrev pub processors_of : FlashCausalLmBatch F Schema → List (Option Schema)
  processors_of b = elim b.next_token_chooser.schema_processor [
    | some processors ↦ processors
    | none ↦ map (λ r. none) b.requests
  ]

  unfoldable pub max_length_of : List (FlashCausalLmBatch F Schema) → Option ℕ
  unfolding max_needs
  max_length_of [] = some 0
  max_length_of (b ∷ bs) = do
    here ← needs_of b.input_lengths b.stopping_criterias (width_of b.speculative_ids)
    rest ← max_length_of bs
    some (max here rest)

  pub cat_speculative : List (FlashCausalLmBatch F Schema) → Option (List (List ℕ))
  cat_speculative [] = some []
  cat_speculative (b ∷ bs) = do
    ids ← b.speculative_ids
    rest ← cat_speculative bs
    some (ids ++ rest)

  unfoldable pub speculative_of :
      FlashCausalLmBatch F Schema
      → List (FlashCausalLmBatch F Schema)
      → Option (Option (List (List ℕ)))
  unfolding has_width
  speculative_of first batches = elim first.speculative_ids [
    | none ↦ some none
    | some ids ↦ cat_speculative batches >>= λ rows.
        if has_width (width_of (some ids)) rows then some (some rows) else none
  ]

  -- The slices of a tensor with an entry, or a row, for each request.
  unfoldable pub assign_all {ℓ} :
      {A : Type ℓ}
      → (FlashCausalLmBatch F Schema → List A)
      → List (FlashCausalLmBatch F Schema)
      → Option (List A)
  assign_all field [] = some []
  assign_all field (b ∷ bs) = do
    here ← assign (length b.requests) (field b)
    rest ← assign_all field bs
    some (here ++ rest)

  -- `batch.slot_indices + cumulative_slots`
  unfoldable pub assign_slot_indices : ℕ → List (FlashCausalLmBatch F Schema) → Option (List ℕ)
  assign_slot_indices total [] = some []
  assign_slot_indices total (b ∷ bs) = do
    here ← assign (length b.requests) (map (λ i. i + total) b.slot_indices)
    rest ← assign_slot_indices (total + length b.slots) bs
    some (here ++ rest)

  -- `batch.start_slots + cumulative_slots`
  unfoldable pub offset_starts : ℕ → List (FlashCausalLmBatch F Schema) → List ℕ
  offset_starts total [] = []
  offset_starts total (b ∷ bs) =
      map (λ i. i + total) b.start_slots ++ offset_starts (total + length b.slots) bs

  -- `total` is `cumulative_batch_size`.
  unfoldable pub join_mappings :
      ℕ → List (ℕ × ℕ) → List (FlashCausalLmBatch F Schema) → List (ℕ × ℕ)
  unfolding offset_mapping
  join_mappings total mapping [] = mapping
  join_mappings total mapping (b ∷ bs) =
      join_mappings (total + length b.requests)
        (offset_mapping total b.requests_idx_mapping mapping) bs

  pub join_sets : List (FlashCausalLmBatch F Schema) → List ℕ → List ℕ
  unfolding union
  join_sets [] s = s
  join_sets (b ∷ bs) s = join_sets bs (union b.adapter_meta.adapter_set s)

  unfoldable pub maximum_of :
      (FlashCausalLmBatch F Schema → ℕ) → List (FlashCausalLmBatch F Schema) → ℕ
  maximum_of field [] = 0
  maximum_of field (b ∷ bs) = max (field b) (maximum_of field bs)

  pub sum_of : (FlashCausalLmBatch F Schema → ℕ) → List (FlashCausalLmBatch F Schema) → ℕ
  sum_of field [] = 0
  sum_of field (b ∷ bs) = field b + sum_of field bs

  -- `extend` in turn.
  unfoldable pub extend {ℓ} :
      {A : Type ℓ}
      → (FlashCausalLmBatch F Schema → List A)
      → List (FlashCausalLmBatch F Schema)
      → List A
  extend field [] = []
  extend field (b ∷ bs) = field b ++ extend field bs

  unfoldable pub tensors_of :
      FlashCausalLmBatch F Schema → List (FlashCausalLmBatch F Schema) → Option Tensors
  unfolding maximum_of assign_slot_indices assign_all speculative_of max_length_of pad_row
  tensors_of first batches = do
    max_length ← max_length_of batches
    input_ids ← assign_all (λ b. b.input_ids) batches
    position_ids ← assign_all (λ b. b.position_ids) batches
    slot_indices ← assign_slot_indices 0 batches
    input_lengths_tensor ← assign_all (λ b. b.input_lengths_tensor) batches
    all_input_ids_tensor ← assign_all (λ b. map (pad_row max_length) b.all_input_ids_tensor) batches
    block_tables_tensor ←
        assign_all
          (λ b. map (pad_row (maximum_of (λ b'. b'.max_blocks) batches)) b.block_tables_tensor)
          batches
    speculative_ids ← speculative_of first batches
    builder ←
        concat_all empty_builder
          (map (λ b. (b.adapter_meta.adapter_segments, b.adapter_meta.segment_indices)) batches)
    (adapter_segments, segment_indices) ← build builder
    some (record {
      input_ids = input_ids;
      position_ids = position_ids;
      slot_indices = slot_indices;
      input_lengths_tensor = input_lengths_tensor;
      all_input_ids_tensor = all_input_ids_tensor;
      block_tables_tensor = block_tables_tensor;
      speculative_ids = speculative_ids;
      adapter_segments = adapter_segments;
      segment_indices = segment_indices;
    })

  -- `cls(…)` at the end, with what is joined without fail.
  unfoldable pub assemble :
      FloatTests F
      → FlashCausalLmBatch F Schema
      → List (FlashCausalLmBatch F Schema)
      → Tensors
      → FlashCausalLmBatch F Schema
  unfolding extend sum_of maximum_of join_sets join_mappings offset_starts
  assemble f first others t =
      let batches = first ∷ others in
      record {
        batch_id = first.batch_id;
        requests = extend (λ b. b.requests) batches;
        requests_idx_mapping =
            join_mappings (length first.requests) first.requests_idx_mapping others;
        input_ids = t.input_ids;
        position_ids = t.position_ids;
        speculative_ids = t.speculative_ids;
        cu_seqlen_prefill = none;
        start_slots = offset_starts 0 batches;
        slot_indices = t.slot_indices;
        block_tables = extend (λ b. b.block_tables) batches;
        block_tables_tensor = t.block_tables_tensor;
        slots = extend (λ b. b.slots) batches;
        max_seqlen = maximum_of (λ b. b.max_seqlen) batches;
        prefill_head_indices = none;
        prefill_next_token_indices = none;
        prefill_cu_outlens = none;
        input_lengths = extend (λ b. b.input_lengths) batches;
        input_lengths_tensor = t.input_lengths_tensor;
        prefix_offsets = extend (λ b. b.prefix_offsets) batches;
        read_offsets = extend (λ b. b.read_offsets) batches;
        all_input_ids = extend (λ b. b.all_input_ids) batches;
        all_input_ids_tensor = t.all_input_ids_tensor;
        next_token_chooser =
            new f (from_pb (map (λ r. r.parameters) (extend (λ b. b.requests) batches)))
              (extend processors_of batches);
        stopping_criterias = extend (λ b. b.stopping_criterias) batches;
        adapter_meta = record {
          adapter_indices = extend (λ b. b.adapter_meta.adapter_indices) batches;
          adapter_set = join_sets batches [];
          adapter_segments = t.adapter_segments;
          segment_indices = t.segment_indices;
        };
        num_blocks = sum_of (λ b. b.num_blocks) batches;
        max_blocks = maximum_of (λ b. b.max_blocks) batches;
        prefill_cache_indices = none;
      }

  -- No batch is an IndexError.
  unfoldable pub concatenate :
      FloatTests F → List (FlashCausalLmBatch F Schema) → Option (FlashCausalLmBatch F Schema)
  unfolding tensors_of assemble
  concatenate f [] = none
  concatenate f (first ∷ others) =
      Option.map (assemble f first others) (tensors_of first (first ∷ others))
