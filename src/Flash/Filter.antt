-- ===== src/Flash/Filter.antt =====
-- `FlashCausalLMBatch.filter`
pub mod Mask
pub mod Layout
pub mod Slots
use mathlib.Core.Option
use lorax.Prelude.{
  ℕ, zero, suc, ◌+◌, ◌-◌, max, Bool, true, false, ◌&&◌, ◌||◌, Option, none, some, List, [], ◌∷◌,
  ◌++◌, map, ◌==◌, ltb, leb, if◌then◌else◌, length, replicate, gather, lookup, put, add, ◌>>=◌,
}
use lorax.Segments.{find_segments}
use lorax.Tokens.Stopping.{StoppingCriteria}
use lorax.Tokens.Chooser.{FloatTests, filter}
use lorax.Flash.{Request, AdapterBatchMetadata, FlashCausalLmBatch}

-- `self.requests_idx_mapping[request_id]` for each id in turn; `none` is a KeyError.
unfoldable pub lookup_all : List (ℕ × ℕ) → List ℕ → Option (List ℕ)
lookup_all mapping [] = some []
lookup_all mapping (request_id ∷ request_ids) = do
  idx ← lookup request_id mapping
  indices ← lookup_all mapping request_ids
  some (idx ∷ indices)

-- `requests_idx_mapping[request_id] = i` for each id in turn.
unfoldable pub renumber : ℕ → List ℕ → List (ℕ × ℕ) → List (ℕ × ℕ)
renumber i [] mapping = mapping
renumber i (request_id ∷ request_ids) mapping =
    renumber (i + 1) request_ids (put request_id i mapping)

-- `request_input_length + remaining_tokens - 1`. The tokens generated are among the input's, so
-- the number is not negative.
unfoldable pub span : ℕ → StoppingCriteria → ℕ
span input_length s = input_length + s.max_new_tokens - s.current_tokens - 1

unfoldable pub spans : List ℕ → List StoppingCriteria → List ℕ
unfolding span
spans [] ss = []
spans (n ∷ ns) [] = []
spans (n ∷ ns) (s ∷ ss) = span n s ∷ spans ns ss

-- `start_slots`: `cumulative_max_length` before each request.
unfoldable pub starts : ℕ → List ℕ → List ℕ
starts total [] = []
starts total (n ∷ ns) = total ∷ starts (total + n) ns

-- `slot_indices[i] = cumulative_max_length + request_input_length - 1`
unfoldable pub last_slots : List ℕ → List ℕ → List ℕ
last_slots [] ns = []
last_slots (start ∷ ss) [] = []
last_slots (start ∷ ss) (n ∷ ns) = (start + n - 1) ∷ last_slots ss ns

-- `mask[start:end] = True`, on the part of the mask that begins at `i`.
unfoldable pub set_true : ℕ → ℕ → ℕ → List Bool → List Bool
set_true i start end [] = []
set_true i start end (b ∷ mask) =
    (b || (leb start i && ltb i end)) ∷ set_true (i + 1) start end mask

-- One slice for each kept request: its old start and its span.
unfoldable pub mask_spans : ℕ → List ℕ → List ℕ → List Bool → List Bool
unfolding set_true
mask_spans i [] ns mask = mask
mask_spans i (start ∷ ss) [] mask = mask
mask_spans i (start ∷ ss) (n ∷ ns) mask = mask_spans i ss ns (set_true i start (start + n) mask)

-- `xs[mask]`
unfoldable pub select : List ℕ → List Bool → List ℕ
select [] mask = []
select (x ∷ xs) [] = []
select (x ∷ xs) (b ∷ mask) = let rest = select xs mask in if b then x ∷ rest else rest

unfoldable pub sum : List ℕ → ℕ
sum [] = 0
sum (n ∷ ns) = n + sum ns

unfoldable pub maximum : List ℕ → ℕ
maximum [] = 0
maximum (n ∷ ns) = max n (maximum ns)

unfoldable pub adapter_set_of : {F : Type 0} → List (Request F) → List ℕ → List ℕ
adapter_set_of [] s = s
adapter_set_of (r ∷ rs) s = adapter_set_of rs (add r.adapter_index s)

abbrev gather_rows : Option (List (List ℕ)) → List ℕ → Option (Option (List (List ℕ)))
gather_rows none indices = some none
gather_rows (some rows) indices = Option.map some (gather rows indices)

module _ {F Schema : Type 0} (f : FloatTests F) where
  -- The part behind the two early returns.
  unfoldable pub filter_requests :
      FlashCausalLmBatch F Schema → List ℕ → Option (FlashCausalLmBatch F Schema)
  unfolding lookup_all renumber spans starts last_slots mask_spans select sum maximum adapter_set_of
  filter_requests b request_ids = do
    indices ← lookup_all b.requests_idx_mapping request_ids
    requests ← gather b.requests indices
    all_input_ids ← gather b.all_input_ids indices
    input_lengths ← gather b.input_lengths indices
    prefix_offsets ← gather b.prefix_offsets indices
    read_offsets ← gather b.read_offsets indices
    stopping_criterias ← gather b.stopping_criterias indices
    block_tables ← gather b.block_tables indices
    old_starts ← gather b.start_slots indices
    input_ids ← gather b.input_ids indices
    position_ids ← gather b.position_ids indices
    adapter_indices ← gather b.adapter_meta.adapter_indices indices
    all_input_ids_tensor ← gather b.all_input_ids_tensor indices
    block_tables_tensor ← gather b.block_tables_tensor indices
    input_lengths_tensor ← gather b.input_lengths_tensor indices
    next_token_chooser ← filter f indices b.next_token_chooser
    speculative_ids ← gather_rows b.speculative_ids indices
    let kept_spans = spans input_lengths stopping_criterias
    let start_slots = starts 0 kept_spans
    let mask = mask_spans 0 old_starts kept_spans (replicate (length b.slots) false)
    let (adapter_segments, segment_indices) = find_segments adapter_indices
    some (record {
      batch_id = b.batch_id;
      requests = requests;
      requests_idx_mapping = renumber 0 request_ids [];
      input_ids = input_ids;
      position_ids = position_ids;
      speculative_ids = speculative_ids;
      cu_seqlen_prefill = none;
      start_slots = start_slots;
      slot_indices = last_slots start_slots input_lengths;
      block_tables = block_tables;
      block_tables_tensor = block_tables_tensor;
      slots = select b.slots mask;
      max_seqlen = maximum input_lengths;
      prefill_head_indices = none;
      prefill_next_token_indices = none;
      prefill_cu_outlens = none;
      input_lengths = input_lengths;
      input_lengths_tensor = input_lengths_tensor;
      prefix_offsets = prefix_offsets;
      read_offsets = read_offsets;
      all_input_ids = all_input_ids;
      all_input_ids_tensor = all_input_ids_tensor;
      next_token_chooser = next_token_chooser;
      stopping_criterias = stopping_criterias;
      adapter_meta = record {
        adapter_indices = adapter_indices;
        adapter_set = adapter_set_of requests [];
        adapter_segments = adapter_segments;
        segment_indices = segment_indices;
      };
      num_blocks = sum (map length block_tables);
      max_blocks = maximum (map length block_tables);
      prefill_cache_indices = none;
    })

  -- `none` is a ValueError for no request, or a KeyError or IndexError.
  unfoldable pub filter_batch :
      FlashCausalLmBatch F Schema → List ℕ → Option (FlashCausalLmBatch F Schema)
  unfolding filter_requests
  filter_batch b [] = none
  filter_batch b (request_id ∷ request_ids) =
      let rest = filter_requests b (request_id ∷ request_ids) in
      if length (request_id ∷ request_ids) == length b.requests then some b else rest
