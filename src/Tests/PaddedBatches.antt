-- ===== src/Tests/PaddedBatches.antt =====
-- Padded batches of two requests and of one. A key, a value and the logits of a request are numbers.
use lorax.Prelude.{ℕ, refl, arith, true, false, none, some, [], ◌∷◌, map, replicate}
use lorax.Prelude.Int.{pos, negsuc}
use lorax.Tokens.Stopping.{StoppingCriteria}
use lorax.Flash.{AdapterBatchMetadata}
use lorax.Flash.Filter.{maximum}
use lorax.Flash.Prefill.{last_n}
use lorax.Causal.{Request, Layer, CausalLmBatch}
use lorax.Causal.Rows.{mask_row, All}
use lorax.Causal.Padded.{IsPadded, HasPast}
use lorax.Causal.Generate.{Engine}
use lorax.Causal.Generate.Members.{IsFull}

-- The model keeps the mask as its keys and values, and all choose the token 9.
abbrev pub masking : Engine ℕ ℕ ℕ
masking = record {
  forward = λ ids mask positions past meta.
      some (map (λ row. 0) mask, record { keys = mask; values = mask } ∷ []);
  choose = λ c ids logits. 9;
  next_state = λ c id. c;
  seed = λ c. none;
  tokenizer_decode = λ ids. ids;
  decode = λ ids. ids;
  is_special = λ id. false;
  world_size = 1;
  rank = 0;
}

abbrev pub request : ℕ → Request
request id = record { id = id; adapter_index = 0; prefill_logprobs = false }

abbrev pub criteria : ℕ → ℕ → StoppingCriteria
criteria limit n = record {
  eos_token_ids = 2 ∷ [];
  stop_sequence_criterias = [];
  max_new_tokens = limit;
  current_tokens = n;
  current_output = replicate n 9;
  ignore_eos_token = false;
}

abbrev pub one_adapter : ℕ → AdapterBatchMetadata
one_adapter n = record {
  adapter_indices = replicate n 0;
  adapter_set = 0 ∷ [];
  adapter_segments = 0 ∷ n ∷ [];
  segment_indices = 0 ∷ [];
}

-- Requests with prompts of two tokens and of one, before their first step.
abbrev pub fresh : CausalLmBatch ℕ ℕ
fresh = record {
  batch_id = 0;
  requests = request 4 ∷ request 5 ∷ [];
  requests_idx_mapping = (4, 0) ∷ (5, 1) ∷ [];
  input_ids = (1 ∷ 3 ∷ []) ∷ (0 ∷ 7 ∷ []) ∷ [];
  attention_mask = (1 ∷ 1 ∷ 0 ∷ 0 ∷ 0 ∷ []) ∷ (0 ∷ 1 ∷ 0 ∷ 0 ∷ 0 ∷ []) ∷ [];
  position_ids = (0 ∷ 1 ∷ []) ∷ (1 ∷ 0 ∷ []) ∷ [];
  past_key_values = none;
  all_input_ids = (1 ∷ 3 ∷ []) ∷ (0 ∷ 7 ∷ []) ∷ [];
  input_lengths = 2 ∷ 1 ∷ [];
  prefix_offsets = negsuc 2 ∷ negsuc 2 ∷ [];
  read_offsets = pos 2 ∷ pos 2 ∷ [];
  next_token_choosers = 0 ∷ 0 ∷ [];
  stopping_criterias = criteria 3 0 ∷ criteria 2 0 ∷ [];
  adapter_meta = one_adapter 2;
  max_input_length = 2;
  padding_right_offset = pos 3;
  max_tokens = pos 14;
  keys_head_dim_last = true;
}

-- After a step.
abbrev pub running : CausalLmBatch ℕ ℕ
running = record fresh {
  input_ids = (9 ∷ []) ∷ (9 ∷ []) ∷ [];
  attention_mask = (1 ∷ 1 ∷ 1 ∷ 0 ∷ 0 ∷ []) ∷ (0 ∷ 1 ∷ 1 ∷ 0 ∷ 0 ∷ []) ∷ [];
  position_ids = (2 ∷ []) ∷ (1 ∷ []) ∷ [];
  past_key_values = some (
      record { keys = (1 ∷ 1 ∷ []) ∷ (0 ∷ 1 ∷ []) ∷ []; values = (1 ∷ 1 ∷ []) ∷ (0 ∷ 1 ∷ []) ∷ [] }
      ∷ []);
  all_input_ids = (1 ∷ 3 ∷ 9 ∷ []) ∷ (0 ∷ 7 ∷ 9 ∷ []) ∷ [];
  input_lengths = 3 ∷ 2 ∷ [];
  prefix_offsets = pos 2 ∷ pos 2 ∷ [];
  read_offsets = pos 3 ∷ pos 3 ∷ [];
  stopping_criterias = criteria 3 1 ∷ criteria 2 1 ∷ [];
  max_input_length = 3;
  padding_right_offset = pos 2;
}

pub fresh-IsPadded : IsPadded fresh 3
unfolding maximum mask_row last_n All
fresh-IsPadded = record {
  padding = refl;
  longest = refl;
  mask = refl;
  placed = refl;
  counted = refl;
  room = (omega arith, (omega arith, tt));
}

pub fresh-IsFull : IsFull fresh
unfolding All
fresh-IsFull = record {
  lengths = refl;
  prefixes = refl;
  reads = refl;
  choosers = refl;
  criterias = refl;
  texts = refl;
  inputs = refl;
  begun = (omega arith, (omega arith, tt));
  positive = (omega arith, (omega arith, tt));
}

pub running-IsPadded : IsPadded running 2
unfolding maximum mask_row last_n All
running-IsPadded = record {
  padding = refl;
  longest = refl;
  mask = refl;
  placed = refl;
  counted = refl;
  room = (omega arith, (omega arith, tt));
}

pub running-IsFull : IsFull running
unfolding All
running-IsFull = record {
  lengths = refl;
  prefixes = refl;
  reads = refl;
  choosers = refl;
  criterias = refl;
  texts = refl;
  inputs = refl;
  begun = (omega arith, (omega arith, tt));
  positive = (omega arith, (omega arith, tt));
}

abbrev pub seen : Layer ℕ
seen = record { keys = (1 ∷ 1 ∷ []) ∷ (0 ∷ 1 ∷ []) ∷ []; values = (1 ∷ 1 ∷ []) ∷ (0 ∷ 1 ∷ []) ∷ [] }

pub running-HasPast : HasPast running seen []
unfolding All
running-HasPast = record {
  past = refl;
  wide = (
    record {
      key_rows = refl;
      value_rows = refl;
      key_width = (refl, (refl, tt));
      value_width = (refl, (refl, tt));
    },
    tt,
  );
  grown = (omega arith, (omega arith, tt));
  inputs = refl;
  input_column = (refl, (refl, tt));
  position_column = (refl, (refl, tt));
}

-- The second request alone, one token shorter.
abbrev pub kept : CausalLmBatch ℕ ℕ
kept = record {
  batch_id = 0;
  requests = request 5 ∷ [];
  requests_idx_mapping = (5, 0) ∷ [];
  input_ids = (9 ∷ []) ∷ [];
  attention_mask = (1 ∷ 1 ∷ 0 ∷ []) ∷ [];
  position_ids = (1 ∷ []) ∷ [];
  past_key_values = some (record { keys = (1 ∷ []) ∷ []; values = (1 ∷ []) ∷ [] } ∷ []);
  all_input_ids = (0 ∷ 7 ∷ 9 ∷ []) ∷ [];
  input_lengths = 2 ∷ [];
  prefix_offsets = pos 2 ∷ [];
  read_offsets = pos 3 ∷ [];
  next_token_choosers = 0 ∷ [];
  stopping_criterias = criteria 2 1 ∷ [];
  adapter_meta = one_adapter 1;
  max_input_length = 2;
  padding_right_offset = pos 1;
  max_tokens = pos 3;
  keys_head_dim_last = true;
}
