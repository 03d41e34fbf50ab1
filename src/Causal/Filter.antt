-- ===== src/Causal/Filter.antt =====
-- `CausalLMBatch.filter`
pub mod Rows
pub mod Layers
pub mod Columns
pub mod Refines
pub mod Keeps
use lorax.Prelude.{
  ℕ, ◌+◌, ◌-◌, ◌*◌, Option, none, some, List, [], ◌∷◌, map, ◌==◌, if◌then◌else◌, length, gather,
  ◌>>=◌,
}
use lorax.Prelude.Int.{ℤ, pos, sub_ℕ, ◌+ℤ◌, neg_ℤ}
use lorax.Segments.{find_segments}
use lorax.Flash.{AdapterBatchMetadata}
use lorax.Flash.Filter.{lookup_all, renumber, maximum}
use lorax.Flash.Texts.{slice, slice_from}
use lorax.Causal.{
  Request, Layer, CausalLmBatch, width_of, total_remaining, max_remaining, set_of_adapters,
}

-- `attention_mask[keep_indices, start:end]` of the kept rows.
unfoldable pub filter_mask : ℤ → ℤ → ℕ → ℕ → List (List ℕ) → List (List ℕ)
filter_mask padding new_padding max_input_length width rows =
    map
      (slice (neg_ℤ (padding +ℤ pos max_input_length)) (pos width +ℤ neg_ℤ padding +ℤ new_padding))
      rows

module _ {K : Type 0} where
  unfoldable pub filter_layer : List ℕ → ℕ → Layer K → Option (Layer K)
  filter_layer keep_indices past_kv_length layer = do
    keys ← gather layer.keys keep_indices
    values ← gather layer.values keep_indices
    some (record {
      keys = map (slice_from (neg_ℤ (pos past_kv_length))) keys;
      values = map (slice_from (neg_ℤ (pos past_kv_length))) values;
    })

  unfoldable pub filter_layers : List ℕ → ℕ → List (Layer K) → Option (List (Layer K))
  unfolding filter_layer
  filter_layers keep_indices past_kv_length [] = some []
  filter_layers keep_indices past_kv_length (layer ∷ layers) = do
    kept ← filter_layer keep_indices past_kv_length layer
    rest ← filter_layers keep_indices past_kv_length layers
    some (kept ∷ rest)

  -- `self.past_key_values[0]` raises where there is none. A batch that has done a step has a
  -- positive `max_input_length`, so `past_kv_length` is not negative.
  unfoldable pub filter_past : List ℕ → ℕ → Option (List (Layer K)) → Option (List (Layer K))
  unfolding filter_layers
  filter_past keep_indices past_kv_length none = none
  filter_past keep_indices past_kv_length (some []) = none
  filter_past keep_indices past_kv_length (some (layer ∷ layers)) =
      filter_layers keep_indices past_kv_length (layer ∷ layers)

module _ {C K : Type 0} where
  -- The body of `filter` behind its two guards.
  unfoldable pub filter_requests : CausalLmBatch C K → List ℕ → Option (CausalLmBatch C K)
  unfolding filter_mask filter_past lookup_all renumber maximum total_remaining max_remaining
      set_of_adapters
  filter_requests b request_ids = do
    keep_indices ← lookup_all b.requests_idx_mapping request_ids
    requests ← gather b.requests keep_indices
    input_ids ← gather b.input_ids keep_indices
    mask_rows ← gather b.attention_mask keep_indices
    position_ids ← gather b.position_ids keep_indices
    all_input_ids ← gather b.all_input_ids keep_indices
    input_lengths ← gather b.input_lengths keep_indices
    prefix_offsets ← gather b.prefix_offsets keep_indices
    read_offsets ← gather b.read_offsets keep_indices
    next_token_choosers ← gather b.next_token_choosers keep_indices
    stopping_criterias ← gather b.stopping_criterias keep_indices
    adapter_indices ← gather b.adapter_meta.adapter_indices keep_indices
    past ← filter_past keep_indices (maximum input_lengths - 1) b.past_key_values
    let (adapter_segments, segment_indices) = find_segments adapter_indices in
        some (record {
          batch_id = b.batch_id;
          requests = requests;
          requests_idx_mapping = renumber 0 request_ids [];
          input_ids = input_ids;
          attention_mask =
              filter_mask b.padding_right_offset (max_remaining stopping_criterias)
                (maximum input_lengths) (width_of b.attention_mask) mask_rows;
          position_ids = position_ids;
          past_key_values = some past;
          all_input_ids = all_input_ids;
          input_lengths = input_lengths;
          prefix_offsets = prefix_offsets;
          read_offsets = read_offsets;
          next_token_choosers = next_token_choosers;
          stopping_criterias = stopping_criterias;
          adapter_meta = record {
            adapter_indices = adapter_indices;
            adapter_set = set_of_adapters requests [];
            adapter_segments = adapter_segments;
            segment_indices = segment_indices;
          };
          max_input_length = maximum input_lengths;
          padding_right_offset = max_remaining stopping_criterias;
          max_tokens =
              pos (length request_ids * maximum input_lengths)
              +ℤ total_remaining stopping_criterias;
          keys_head_dim_last = b.keys_head_dim_last;
        })

  unfoldable pub filter : CausalLmBatch C K → List ℕ → Option (CausalLmBatch C K)
  unfolding filter_requests
  filter b request_ids =
      if length request_ids == 0
      then none
      else if length request_ids == length b.requests
      then some b
      else filter_requests b request_ids
