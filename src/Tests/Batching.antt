-- ===== src/Tests/Batching.antt =====
-- A batch of two requests of which one is kept. Floats are counted in tenths.
use lorax.Prelude.{
  ℕ, ◌≡◌, refl, true, false, none, some, List, [], ◌∷◌, ◌==◌, ltb, contains, lookup, put, add,
  gather, arith,
}
use lorax.Prelude.Int.{pos}
use lorax.Flash.Concatenate.{
  extend, Tensors, assemble, concatenate, tensors_of, maximum_of, assign_slot_indices, assign_all,
  speculative_of, max_length_of, max_needs, pad_row,
}
use mathlib.Core.List.{flatten}
use lorax.Flash.Concatenate.Segments.{AllSegments, concatenate-segments}
use lorax.Flash.Concatenate.Slots.{concatenate-IsLaidOut}
use lorax.Segments.{
  offset_segments, merge_segments, trim_last, concat, concat_all, torch_concat, build, scan,
  scan_step, close, find_segments,
}
use lorax.Tokens.Stopping.{StoppingCriteria}
use lorax.Tokens.Chooser.{
  FloatTests, RequestParameters, Chooser, from_pb, new, filter, warpers_of, greedy, filter_warpers,
  filter_keys, filter_sampling, true_indices,
}
use lorax.Tokens.Chooser.Laws.{warpers_of-samples}
use lorax.Tokens.Chooser.Filtered.{filter-new}
use lorax.Flash.{Request, FlashCausalLmBatch}
use lorax.Flash.Filter.{
  filter_requests, last_slots, starts, spans, lookup_all, renumber, span, set_true, mask_spans,
  select, sum, maximum, adapter_set_of,
}
use lorax.Flash.Filter.Mask.{Chunk}
use lorax.Flash.Filter.Layout.{IsLaidOut}
use lorax.Flash.Filter.Slots.{filter_requests-IsLaidOut}

abbrev pub tenths : FloatTests ℕ
tenths = record { is_zero = λ x. x == 0; is_one = λ x. x == 10; below_one = λ x. ltb x 10 }

abbrev pub plain_parameters : RequestParameters ℕ
plain_parameters = record {
  watermark = false;
  temperature = 10;
  repetition_penalty = 10;
  top_k = 0;
  top_p = 10;
  typical_p = 10;
  do_sample = false;
  seed = 1;
}

abbrev warm_parameters : RequestParameters ℕ
warm_parameters = record {
  watermark = true;
  temperature = 7;
  repetition_penalty = 12;
  top_k = 5;
  top_p = 9;
  typical_p = 10;
  do_sample = false;
  seed = 2;
}

warpers_of-samples_example :
    (warpers_of tenths (from_pb (plain_parameters ∷ warm_parameters ∷ []))).1 ≡ false ∷ true ∷ []
warpers_of-samples_example = warpers_of-samples tenths (plain_parameters ∷ warm_parameters ∷ [])

filter-new_example :
    filter {Schema = ℕ} tenths
      (1 ∷ [])
      (new tenths (from_pb (plain_parameters ∷ warm_parameters ∷ [])) (none ∷ some 4 ∷ []))
    ≡ some (new tenths (from_pb (warm_parameters ∷ [])) (some 4 ∷ []))
unfolding gather
filter-new_example =
    filter-new tenths (plain_parameters ∷ warm_parameters ∷ []) (warm_parameters ∷ []) (1 ∷ []) refl
      (none ∷ some 4 ∷ []) (some 4 ∷ []) refl ((refl, refl), tt)

abbrev pub criteria_of : ℕ → StoppingCriteria
criteria_of n = record {
  eos_token_ids = 2 ∷ [];
  stop_sequence_criterias = [];
  max_new_tokens = n;
  current_tokens = 1;
  current_output = 65 ∷ [];
  ignore_eos_token = false;
}

abbrev plain_chooser : Chooser ℕ ℕ
plain_chooser = record {
  watermark_processor = none;
  repetition_processor = none;
  schema_processor = none;
  warpers = [];
  choice = greedy;
  seeds = 1 ∷ 2 ∷ [];
  do_sample = false ∷ false ∷ [];
}

abbrev pub request : ℕ → ℕ → Request ℕ
request i a = record { id = i; adapter_index = a; parameters = plain_parameters }

abbrev pub two_requests : FlashCausalLmBatch ℕ ℕ
two_requests = record {
  batch_id = 1;
  requests = request 7 0 ∷ request 9 4 ∷ [];
  requests_idx_mapping = (7, 0) ∷ (9, 1) ∷ [];
  input_ids = 5 ∷ 6 ∷ [];
  position_ids = 2 ∷ 1 ∷ [];
  speculative_ids = none;
  cu_seqlen_prefill = none;
  start_slots = 0 ∷ 4 ∷ [];
  slot_indices = 2 ∷ 5 ∷ [];
  block_tables = (0 ∷ []) ∷ (1 ∷ []) ∷ [];
  block_tables_tensor = (0 ∷ []) ∷ (1 ∷ []) ∷ [];
  slots = 10 ∷ 11 ∷ 12 ∷ 13 ∷ 20 ∷ 21 ∷ 22 ∷ [];
  max_seqlen = 3;
  prefill_head_indices = none;
  prefill_next_token_indices = none;
  prefill_cu_outlens = none;
  input_lengths = 3 ∷ 2 ∷ [];
  input_lengths_tensor = 3 ∷ 2 ∷ [];
  prefix_offsets = pos 0 ∷ pos 0 ∷ [];
  read_offsets = pos 2 ∷ pos 1 ∷ [];
  all_input_ids = (3 ∷ 4 ∷ 5 ∷ []) ∷ (3 ∷ 6 ∷ []) ∷ [];
  all_input_ids_tensor = (3 ∷ 4 ∷ 5 ∷ []) ∷ (3 ∷ 6 ∷ []) ∷ [];
  next_token_chooser = plain_chooser;
  stopping_criterias = criteria_of 3 ∷ criteria_of 2 ∷ [];
  adapter_meta = record {
    adapter_indices = 0 ∷ 4 ∷ [];
    adapter_set = 0 ∷ 4 ∷ [];
    adapter_segments = 0 ∷ 1 ∷ 2 ∷ [];
    segment_indices = 0 ∷ 4 ∷ [];
  };
  num_blocks = 2;
  max_blocks = 1;
  prefill_cache_indices = none;
}

abbrev pub one_request : FlashCausalLmBatch ℕ ℕ
one_request = record two_requests {
  requests = request 9 4 ∷ [];
  requests_idx_mapping = (9, 0) ∷ [];
  input_ids = 6 ∷ [];
  position_ids = 1 ∷ [];
  start_slots = 0 ∷ [];
  slot_indices = 1 ∷ [];
  block_tables = (1 ∷ []) ∷ [];
  block_tables_tensor = (1 ∷ []) ∷ [];
  slots = 20 ∷ 21 ∷ [];
  max_seqlen = 2;
  input_lengths = 2 ∷ [];
  input_lengths_tensor = 2 ∷ [];
  prefix_offsets = pos 0 ∷ [];
  read_offsets = pos 1 ∷ [];
  all_input_ids = (3 ∷ 6 ∷ []) ∷ [];
  all_input_ids_tensor = (3 ∷ 6 ∷ []) ∷ [];
  next_token_chooser = record plain_chooser { seeds = 2 ∷ []; do_sample = false ∷ [] };
  stopping_criterias = criteria_of 2 ∷ [];
  adapter_meta = record {
    adapter_indices = 4 ∷ [];
    adapter_set = 4 ∷ [];
    adapter_segments = 0 ∷ 1 ∷ [];
    segment_indices = 4 ∷ [];
  };
  num_blocks = 1;
}

abbrev pub chunks : List Chunk
chunks = (false, 4, 10 ∷ 11 ∷ 12 ∷ 13 ∷ []) ∷ (true, 2, 20 ∷ 21 ∷ 22 ∷ []) ∷ []

pub chunks-IsLaidOut : IsLaidOut two_requests chunks
unfolding starts spans span
chunks-IsLaidOut = record {
  slots = refl;
  starts = refl;
  needs = refl;
  lengths = refl;
  criterias = refl;
  fits = (omega arith, (omega arith, tt));
}

two_requests-filtered : filter_requests tenths two_requests (9 ∷ []) ≡ some one_request
unfolding filter_requests lookup_all renumber span spans starts last_slots set_true mask_spans
    select sum maximum adapter_set_of filter filter_warpers filter_keys filter_sampling
    find_segments scan scan_step close gather lookup put add contains
two_requests-filtered = refl

filter_requests-IsLaidOut_example :
    IsLaidOut one_request ((true, 2, 20 ∷ 21 ∷ []) ∷ [])
    × (1 ∷ [] ≡ last_slots (0 ∷ []) (2 ∷ []))
    × (find_segments (4 ∷ []) ≡ (0 ∷ 1 ∷ [], 4 ∷ []))
unfolding lookup_all lookup true_indices
filter_requests-IsLaidOut_example =
    filter_requests-IsLaidOut tenths two_requests one_request (9 ∷ []) chunks chunks-IsLaidOut refl
      two_requests-filtered

abbrev joined_tensors : Tensors
joined_tensors = record {
  input_ids = 5 ∷ 6 ∷ 6 ∷ [];
  position_ids = 2 ∷ 1 ∷ 1 ∷ [];
  slot_indices = 2 ∷ 5 ∷ 8 ∷ [];
  input_lengths_tensor = 3 ∷ 2 ∷ 2 ∷ [];
  all_input_ids_tensor =
      (3 ∷ 4 ∷ 5 ∷ 0 ∷ 0 ∷ []) ∷ (3 ∷ 6 ∷ 0 ∷ 0 ∷ 0 ∷ []) ∷ (3 ∷ 6 ∷ 0 ∷ 0 ∷ 0 ∷ []) ∷ [];
  block_tables_tensor = (0 ∷ []) ∷ (1 ∷ []) ∷ (1 ∷ []) ∷ [];
  speculative_ids = none;
  adapter_segments = 0 ∷ 1 ∷ 3 ∷ [];
  segment_indices = 0 ∷ 4 ∷ [];
}

abbrev one_chunk : List Chunk
one_chunk = (true, 2, 20 ∷ 21 ∷ []) ∷ []

one_chunk-IsLaidOut : IsLaidOut one_request one_chunk
unfolding starts spans span
one_chunk-IsLaidOut = record {
  slots = refl;
  starts = refl;
  needs = refl;
  lengths = refl;
  criterias = refl;
  fits = (omega arith, tt);
}

joined :
    concatenate tenths (two_requests ∷ one_request ∷ [])
    ≡ some (assemble tenths two_requests (one_request ∷ []) joined_tensors)
unfolding concatenate tensors_of maximum_of assign_slot_indices assign_all speculative_of
    max_length_of max_needs pad_row offset_segments merge_segments trim_last concat concat_all
    torch_concat build flatten
joined = refl

concatenate-IsLaidOut_example :
    IsLaidOut (assemble tenths two_requests (one_request ∷ []) joined_tensors) (
      (false, 4, 10 ∷ 11 ∷ 12 ∷ 13 ∷ [])
      ∷ (true, 2, 20 ∷ 21 ∷ 22 ∷ [])
      ∷ (true, 2, 20 ∷ 21 ∷ [])
      ∷ [])
concatenate-IsLaidOut_example =
    concatenate-IsLaidOut tenths ((two_requests, chunks) ∷ (one_request, one_chunk) ∷ [])
      (assemble tenths two_requests (one_request ∷ []) joined_tensors)
      (chunks-IsLaidOut, (one_chunk-IsLaidOut, tt)) joined

joined-segments : AllSegments (two_requests ∷ one_request ∷ []) ((0, 4 ∷ []) ∷ (4, []) ∷ [])
unfolding find_segments scan scan_step close
joined-segments = ((refl, refl), ((refl, refl), tt))

concatenate-segments_example :
    ((assemble tenths two_requests (one_request ∷ []) joined_tensors).adapter_meta.adapter_indices
      ≡ extend (λ b. b.adapter_meta.adapter_indices) (two_requests ∷ one_request ∷ []))
    × ((0 ∷ 1 ∷ 3 ∷ [], 0 ∷ 4 ∷ [])
        ≡ find_segments
            (assemble tenths two_requests
              (one_request ∷ [])
              joined_tensors).adapter_meta.adapter_indices)
unfolding assemble
concatenate-segments_example =
    concatenate-segments tenths two_requests (one_request ∷ []) 0 (4 ∷ []) ((4, []) ∷ [])
      (assemble tenths two_requests (one_request ∷ []) joined_tensors) joined-segments joined
