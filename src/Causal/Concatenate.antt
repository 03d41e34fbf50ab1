-- ===== src/Causal/Concatenate.antt =====
-- `CausalLMBatch.concatenate`
pub mod Rows
pub mod Ready
pub mod Past
pub mod Side
pub mod Layers
pub mod Columns
pub mod Refines
pub mod Keeps
use mathlib.Core.List.{flatten}
use lorax.Prelude.{
  ℕ, suc, ◌+◌, ◌-◌, ◌*◌, max, min, Bool, true, false, ◌&&◌, Option, none, some, List, [], ◌∷◌, ◌++◌,
  map, ◌==◌, if◌then◌else◌, length, replicate, get_elem?, ◌>>=◌,
}
use lorax.Prelude.Int.{ℤ, pos, sub_ℕ, ◌+ℤ◌, neg_ℤ, max_ℤ}
use lorax.Segments.{concat_all, build, empty_builder}
use lorax.Flash.{AdapterBatchMetadata}
use lorax.Flash.Concatenate.{assign, offset_mapping, union}
use lorax.Flash.Texts.{slice, slice_from, slice_index}
use lorax.Causal.{Request, Layer, CausalLmBatch, width_of}

-- The function on each item, until one raises.
unfoldable pub each : {A B : Type 0} → (A → Option B) → List A → Option (List B)
each f [] = some []
each f (x ∷ xs) = do y ← f x; ys ← each f xs; some (y ∷ ys)

-- A row of `width` zeros, over which `xs` is written from the index `start` up to the index `end`.
unfoldable pub write_row : {A : Type 0} → A → ℕ → ℤ → ℤ → List A → Option (List A)
write_row zero width start end xs =
    let i = min width (slice_index width start) in
    let n = min width (slice_index width end) - i in
    assign n xs >>= λ written.
    some (replicate i zero ++ written ++ replicate (width - (i + n)) zero)

-- A tensor of one column.
unfoldable pub column : ℕ → List (List ℕ) → Option (List (List ℕ))
unfolding each
column size rows = each (λ row. assign 1 row) rows >>= λ rows. assign size rows

module _ {C K : Type 0} where
  unfoldable pub maximum_length : List (CausalLmBatch C K) → ℕ
  maximum_length [] = 0
  maximum_length (b ∷ bs) = max b.max_input_length (maximum_length bs)

  unfoldable pub maximum_padding : List (CausalLmBatch C K) → ℤ
  maximum_padding [] = pos 0
  maximum_padding (b ∷ bs) = max_ℤ b.padding_right_offset (maximum_padding bs)

  -- The rows of a batch in the joined mask.
  unfoldable pub mask_rows : ℕ → ℤ → CausalLmBatch C K → Option (List (List ℕ))
  unfolding write_row each
  mask_rows max_input_length padding b =
      let left_offset = sub_ℕ max_input_length b.max_input_length in
      let batch_left_offset =
        pos (width_of b.attention_mask)
        +ℤ neg_ℤ (pos b.max_input_length)
        +ℤ neg_ℤ b.padding_right_offset in
      each
        (λ row.
          write_row 0 (slice_index 0 (pos max_input_length +ℤ padding)) left_offset (neg_ℤ padding)
            (slice batch_left_offset (neg_ℤ b.padding_right_offset) row))
        b.attention_mask
      >>= λ rows. assign (length b.requests) rows

  -- The rows of a batch in the joined keys, or values, of a layer.
  unfoldable pub past_rows : K → ℕ → CausalLmBatch C K → List (List K) → Option (List (List K))
  unfolding write_row each
  past_rows zero max_input_length b rows =
      let past_seq_len = neg_ℤ (pos (b.max_input_length - 1)) in
      each
        (λ row.
          write_row zero (max_input_length - 1) past_seq_len (pos (max_input_length - 1))
            (slice_from past_seq_len row))
        rows
      >>= λ rows. assign (length b.requests) rows

  -- `batch.past_key_values[j]`; `none` is an IndexError, or the ValueError of a batch without past.
  unfoldable pub layer_of : ℕ → CausalLmBatch C K → Option (Layer K)
  layer_of j b = b.past_key_values >>= λ layers. get_elem? layers j

  -- Layer `j` of the joined batch.
  unfoldable pub join_layer : K → ℕ → List (CausalLmBatch C K) → ℕ → Option (Layer K)
  unfolding past_rows layer_of
  join_layer zero max_input_length batches j = do
    keys ← each (λ b. layer_of j b >>= λ l. past_rows zero max_input_length b l.keys) batches
    values ← each (λ b. layer_of j b >>= λ l. past_rows zero max_input_length b l.values) batches
    some (record { keys = flatten keys; values = flatten values })

  unfoldable pub join_layers :
      K → ℕ → List (CausalLmBatch C K) → ℕ → List (Layer K) → Option (List (Layer K))
  unfolding join_layer
  join_layers zero max_input_length batches j [] = some []
  join_layers zero max_input_length batches j (first ∷ layers) = do
    layer ← join_layer zero max_input_length batches j
    rest ← join_layers zero max_input_length batches (j + 1) layers
    some (layer ∷ rest)

  unfoldable pub join_mappings : ℕ → List (ℕ × ℕ) → List (CausalLmBatch C K) → List (ℕ × ℕ)
  unfolding offset_mapping
  join_mappings start_index mapping [] = mapping
  join_mappings start_index mapping (b ∷ bs) =
      join_mappings (start_index + length b.requests)
        (offset_mapping start_index b.requests_idx_mapping mapping) bs

  unfoldable pub join_sets : List (CausalLmBatch C K) → List ℕ → List ℕ
  unfolding union
  join_sets [] s = s
  join_sets (b ∷ bs) s = join_sets bs (union b.adapter_meta.adapter_set s)

  -- `batch.max_tokens + (max_input_length - batch.max_input_length) * len(batch)`, over the batches.
  unfoldable pub join_max_tokens : ℕ → List (CausalLmBatch C K) → ℤ
  join_max_tokens max_input_length [] = pos 0
  join_max_tokens max_input_length (b ∷ bs) =
      b.max_tokens
      +ℤ pos ((max_input_length - b.max_input_length) * length b.requests)
      +ℤ join_max_tokens max_input_length bs

  -- `zero` is the entry of `new_zeros`.
  unfoldable pub concatenate : K → List (CausalLmBatch C K) → Option (CausalLmBatch C K)
  unfolding mask_rows column layer_of join_layers maximum_length maximum_padding join_mappings
      join_sets join_max_tokens
  concatenate zero [] = none
  concatenate zero (first ∷ others) =
      let batches = first ∷ others in
      let max_input_length = maximum_length batches in
      let padding = maximum_padding batches in
      do
        input_ids ← each (λ b. column (length b.requests) b.input_ids) batches
        mask ← each (mask_rows max_input_length padding) batches
        position_ids ← each (λ b. column (length b.requests) b.position_ids) batches
        firsts ← each (layer_of 0) batches
        layers ← first.past_key_values
        past ← join_layers zero max_input_length batches 0 layers
        builder ←
            concat_all empty_builder
              (map (λ b. (b.adapter_meta.adapter_segments, b.adapter_meta.segment_indices)) batches)
        (adapter_segments, segment_indices) ← build builder
        some (record {
          batch_id = first.batch_id;
          requests = flatten (map (λ b. b.requests) batches);
          requests_idx_mapping =
              join_mappings (length first.requests) first.requests_idx_mapping others;
          input_ids = flatten input_ids;
          attention_mask = flatten mask;
          position_ids = flatten position_ids;
          past_key_values = some past;
          all_input_ids = flatten (map (λ b. b.all_input_ids) batches);
          input_lengths = flatten (map (λ b. b.input_lengths) batches);
          prefix_offsets = flatten (map (λ b. b.prefix_offsets) batches);
          read_offsets = flatten (map (λ b. b.read_offsets) batches);
          next_token_choosers = flatten (map (λ b. b.next_token_choosers) batches);
          stopping_criterias = flatten (map (λ b. b.stopping_criterias) batches);
          adapter_meta = record {
            adapter_indices = flatten (map (λ b. b.adapter_meta.adapter_indices) batches);
            adapter_set = join_sets batches [];
            adapter_segments = adapter_segments;
            segment_indices = segment_indices;
          };
          max_input_length = max_input_length;
          padding_right_offset = padding;
          max_tokens = join_max_tokens max_input_length batches;
          keys_head_dim_last = first.keys_head_dim_last;
        })
