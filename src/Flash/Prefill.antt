-- ===== src/Flash/Prefill.antt =====
-- `FlashCausalLMBatch.from_pb`: the batch of new requests, for which the prompt is to be computed.
pub mod Blocks
pub mod Slots
pub mod Ends
use mathlib.Core.List.{flatten}
use mathlib.Core.Option
use lorax.Prelude.{
  ℕ, zero, suc, ◌+◌, ◌-◌, ◌*◌, ◌/◌, max, Bool, true, false, ◌&&◌, not, Option, none, some, List, [],
  ◌∷◌, ◌++◌, map, ◌==◌, if◌then◌else◌, length, replicate, take, drop, ◌>>=◌,
}
use lorax.Prelude.Int.{ℤ, pos, sub_ℕ}
use lorax.Segments.{find_segments}
use lorax.Tokens.Stopping.{
  Text, StoppingCriteria, StoppingParameters, EosTokenId, from_pb as criteria_of,
}
use lorax.Tokens.Ngram.{cumsum, arange}
use lorax.Tokens.Chooser.{FloatTests, new, from_pb as parameters_of}
use lorax.Flash.{Request, AdapterBatchMetadata, FlashCausalLmBatch}
use lorax.Flash.Filter.{renumber, starts, sum, maximum, adapter_set_of}
use lorax.Flash.Concatenate.{pad_row}

-- A request of the router: what the batch keeps of it, and what only `from_pb` reads.
pub record PbRequest (F : Type 0) : Type 0 where
  pub request : Request F
  pub inputs : Text
  pub tokenized_inputs : Option (List ℕ)
  pub truncate : ℕ
  pub stopping_parameters : StoppingParameters
  pub prefill_logprobs : Bool
  pub blocks : List ℕ
  pub slots : List ℕ

-- The tokenizer, and the schema processors that it is compiled into; `none` is an exception.
pub record Tokenizer (F Schema : Type 0) : Type 0 where
  pub tokenize : List Text → ℕ → Option (List (List ℕ))
  pub eos_token_id : EosTokenId
  pub compile_schemas : List (PbRequest F) → Option (List (Option Schema))

-- The module's settings, and `get_speculative_tokens()`.
pub record Settings : Type 0 where
  pub sliding_window : Option ℕ
  pub speculative_tokens : ℕ

abbrev pub block_size : ℕ
block_size = 16

-- `xs[-n:]`, which is all of `xs` for n = 0.
unfoldable pub last_n : ℕ → List ℕ → List ℕ
last_n n xs = if n == 0 then xs else drop (length xs - n) xs

-- `all(r.HasField("tokenized_inputs") ...)`, with the ids.
unfoldable pub all_tokenized : {F : Type 0} → ℕ → List (PbRequest F) → Option (List (List ℕ))
unfolding last_n
all_tokenized n [] = some []
all_tokenized n (r ∷ rs) = do
  ids ← r.tokenized_inputs
  rest ← all_tokenized n rs
  some (last_n n ids ∷ rest)

-- A request with its tokens, cut to its own `truncate`.
pub record Prompt (F : Type 0) : Type 0 where
  pub pb : PbRequest F
  pub tokens : List ℕ

unfoldable pub zip_prompts : {F : Type 0} → List (PbRequest F) → List (List ℕ) → List (Prompt F)
unfolding last_n
zip_prompts [] inputs = []
zip_prompts (r ∷ rs) [] = []
zip_prompts (r ∷ rs) (ids ∷ inputs) =
    record { pb = r; tokens = last_n r.truncate ids } ∷ zip_prompts rs inputs

unfoldable pub total_tokens : {F : Type 0} → ℕ → Prompt F → ℕ
total_tokens speculative_tokens p =
    length p.tokens + p.pb.stopping_parameters.max_new_tokens + speculative_tokens - 1

-- The slots of a block.
unfoldable pub slots_of_blocks : List ℕ → List ℕ
unfolding arange
slots_of_blocks [] = []
slots_of_blocks (b ∷ blocks) = arange (b * block_size) block_size ++ slots_of_blocks blocks

-- The blocks of a request, or as many as it needs from `num_blocks` on if it has none, with the
-- slots of those.
abbrev pub blocks_or : ℕ → ℕ → List ℕ → List ℕ → List ℕ × List ℕ
blocks_or num_blocks total [] slots =
    let blocks = arange num_blocks ((total + block_size - 1) / block_size) in
    (blocks, slots_of_blocks blocks)
blocks_or num_blocks total (b ∷ blocks) slots = (b ∷ blocks, slots)

abbrev pub blocks_of : {F : Type 0} → ℕ → ℕ → Prompt F → List ℕ × List ℕ
blocks_of speculative num_blocks p =
    blocks_or num_blocks (total_tokens speculative p) p.pb.blocks p.pb.slots

-- `num_blocks` behind a request.
abbrev pub next_block : {F : Type 0} → ℕ → ℕ → Prompt F → ℕ
next_block speculative num_blocks p = num_blocks + length (blocks_of speculative num_blocks p).0

-- The block table and the slots of each request in turn.
unfoldable pub allocate : {F : Type 0} → ℕ → ℕ → List (Prompt F) → List (List ℕ × List ℕ)
unfolding total_tokens slots_of_blocks arange
allocate speculative num_blocks [] = []
allocate speculative num_blocks (p ∷ ps) =
    let (blocks, slots) = blocks_of speculative num_blocks p in
    (blocks, take (total_tokens speculative p) slots)
    ∷ allocate speculative (next_block speculative num_blocks p) ps

-- `torch.cat` of a range for each request.
unfoldable pub ranges : List ℕ → List ℕ → List ℕ
unfolding arange
ranges [] ns = []
ranges (s ∷ ss) [] = []
ranges (s ∷ ss) (n ∷ ns) = arange s n ++ ranges ss ns

-- Of each prompt, the places that stay in the sliding window.
unfoldable pub window_ranges : ℕ → ℕ → List ℕ → List ℕ
unfolding arange
window_ranges window total [] = []
window_ranges window total (n ∷ ns) =
    arange (total + (n - window)) (n - (n - window)) ++ window_ranges window (total + n) ns

-- The three lists for the logits that a prefill returns, where requests differ in `prefill_logprobs`.
unfoldable pub head_indices : {F : Type 0} → ℕ → List (Prompt F) → List ℕ
unfolding arange
head_indices total [] = []
head_indices total (p ∷ ps) =
    let n = length p.tokens in
    (if p.pb.prefill_logprobs then arange total n else (total + n - 1) ∷ [])
    ++ head_indices (total + n) ps

abbrev pub out_length : {F : Type 0} → Prompt F → ℕ
out_length p = if p.pb.prefill_logprobs then length p.tokens else 1

unfoldable pub next_token_indices : {F : Type 0} → ℕ → List (Prompt F) → List ℕ
next_token_indices total [] = []
next_token_indices total (p ∷ ps) =
    (total + out_length p - 1) ∷ next_token_indices (total + out_length p) ps

abbrev pub all : {A : Type 0} → (A → Bool) → List A → Bool
all p [] = true
all p (x ∷ xs) = p x && all p xs

-- `torch.full((input_length,), r.adapter_index)` for each request.
unfoldable pub adapter_indices_of : {F : Type 0} → List (Prompt F) → List ℕ
adapter_indices_of [] = []
adapter_indices_of (p ∷ ps) =
    replicate (length p.tokens) p.pb.request.adapter_index ++ adapter_indices_of ps

module _ {F Schema : Type 0} (f : FloatTests F) (settings : Settings)
    (tokenizer : Tokenizer F Schema) where
  unfoldable pub batch_of :
      ℕ → List (PbRequest F) → List (Prompt F) → List (Option Schema) → FlashCausalLmBatch F Schema
  unfolding allocate total_tokens ranges window_ranges head_indices next_token_indices
      adapter_indices_of
  batch_of id requests prompts processors =
      let lengths = map (λ p. length p.tokens) prompts in
      let tables = allocate settings.speculative_tokens 0 prompts in
      let start_slots = starts 0 (map (total_tokens settings.speculative_tokens) prompts) in
      let ends = map (λ n. n - 1) (cumsum 0 lengths) in
      let max_blocks = maximum (map (λ t. length t.0) tables) in
      let max_length = maximum (
        map
          (λ p.
            length p.tokens + p.pb.stopping_parameters.max_new_tokens + settings.speculative_tokens)
          prompts) in
      let all_logprobs = all (λ p. p.pb.prefill_logprobs) prompts in
      let no_logprobs = all (λ p. not p.pb.prefill_logprobs) prompts in
      let adapter_indices = adapter_indices_of prompts in
      let (adapter_segments, segment_indices) = find_segments adapter_indices in
      record {
        batch_id = id;
        requests = map (λ r. r.request) requests;
        requests_idx_mapping = renumber 0 (map (λ p. p.pb.request.id) prompts) [];
        input_ids = flatten (map (λ p. p.tokens) prompts);
        position_ids = ranges (map (λ n. 0) lengths) lengths;
        speculative_ids = none;
        cu_seqlen_prefill = some (0 ∷ cumsum 0 lengths);
        start_slots = start_slots;
        slot_indices = ranges start_slots lengths;
        block_tables = map (λ t. t.0) tables;
        block_tables_tensor = map (λ t. pad_row max_blocks t.0) tables;
        slots = flatten (map (λ t. t.1) tables);
        max_seqlen = maximum lengths;
        prefill_head_indices =
            if all_logprobs
            then none
            else if no_logprobs
            then some ends
            else some (head_indices 0 prompts);
        prefill_next_token_indices =
            if all_logprobs
            then some ends
            else if no_logprobs
            then none
            else some (next_token_indices 0 prompts);
        prefill_cu_outlens = some (0 ∷ cumsum 0 (map out_length prompts));
        input_lengths = lengths;
        input_lengths_tensor = lengths;
        prefix_offsets = map (λ n. sub_ℕ n 5) lengths;
        read_offsets = map pos lengths;
        all_input_ids = map (λ p. p.tokens) prompts;
        all_input_ids_tensor = map (λ p. pad_row max_length p.tokens) prompts;
        next_token_chooser =
            new f (parameters_of (map (λ p. p.pb.request.parameters) prompts)) processors;
        stopping_criterias =
            map (λ p. criteria_of p.pb.stopping_parameters tokenizer.eos_token_id) prompts;
        adapter_meta = record {
          adapter_indices = adapter_indices;
          adapter_set = adapter_set_of (map (λ p. p.pb.request) prompts) [];
          adapter_segments = adapter_segments;
          segment_indices = segment_indices;
        };
        num_blocks = sum (map (λ t. length t.0) tables);
        max_blocks = max_blocks;
        prefill_cache_indices =
            Option.map (λ window. window_ranges window 0 lengths) settings.sliding_window;
      }

  unfoldable pub tokenized : List (PbRequest F) → Option (List (List ℕ))
  unfolding all_tokenized
  tokenized requests =
      let max_truncation = maximum (map (λ r. r.truncate) requests) in
      elim (all_tokenized max_truncation requests) [
        | some inputs ↦ some inputs
        | none ↦ tokenizer.tokenize (map (λ r. r.inputs) requests) max_truncation
      ]

  -- No prompt is the RuntimeError of `torch.cat([])`.
  abbrev pub batch_if :
      ℕ
      → List (PbRequest F)
      → List (Prompt F)
      → List (Option Schema)
      → Option (FlashCausalLmBatch F Schema)
  batch_if id requests [] processors = none
  batch_if id requests (p ∷ prompts) processors =
      some (batch_of id requests (p ∷ prompts) processors)

  unfoldable pub from_pb : ℕ → List (PbRequest F) → Option (FlashCausalLmBatch F Schema)
  unfolding tokenized zip_prompts batch_of
  from_pb id requests = do
    inputs ← tokenized requests
    processors ← tokenizer.compile_schemas requests
    batch_if id requests (zip_prompts requests inputs) processors
