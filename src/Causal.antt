-- ===== src/Causal.antt =====
-- server/lorax_server/models/causal_lm.py: the batches of the causal language models without paged
-- attention, whose rows are padded on the left to one length. A tensor of two dimensions is the list
-- of its rows. Of the keys and values of a layer each row is the list of the entries of its
-- positions, whichever dimension (`keys_head_dim_last`) the position is.
pub mod Rows
pub mod Flatten
pub mod Views
pub mod Padded
pub mod Filter
pub mod Concatenate
pub mod Generate
pub mod Prefill
pub mod Life
use lorax.Prelude.{
  ℕ, ◌+◌, ◌-◌, Bool, true, false, ◌&&◌, Option, none, some, List, [], ◌∷◌, ◌++◌, map, ◌==◌,
  if◌then◌else◌, length, replicate, drop, add,
}
use lorax.Prelude.Int.{ℤ, pos, negsuc, sub_ℕ, ◌+ℤ◌, neg_ℤ, max_ℤ}
use lorax.Tokens.Stopping.{StoppingCriteria}
use lorax.Flash.{AdapterBatchMetadata}

-- What the batch reads of a request.
pub record Request : Type 0 where
  pub id : ℕ
  pub adapter_index : ℕ
  pub prefill_logprobs : Bool

-- The past keys and values of a layer.
pub record Layer (K : Type 0) : Type 0 where
  pub keys : List (List K)
  pub values : List (List K)

-- `C` are NextTokenChoosers and `K` the entries of a key or a value.
pub record CausalLmBatch (C K : Type 0) : Type 0 where
  pub batch_id : ℕ
  pub requests : List Request
  pub requests_idx_mapping : List (ℕ × ℕ)
  pub input_ids : List (List ℕ)
  pub attention_mask : List (List ℕ)
  pub position_ids : List (List ℕ)
  pub past_key_values : Option (List (Layer K))
  pub all_input_ids : List (List ℕ)
  pub input_lengths : List ℕ
  pub prefix_offsets : List ℤ
  pub read_offsets : List ℤ
  pub next_token_choosers : List C
  pub stopping_criterias : List StoppingCriteria
  pub adapter_meta : AdapterBatchMetadata
  pub max_input_length : ℕ
  pub padding_right_offset : ℤ
  pub max_tokens : ℤ
  pub keys_head_dim_last : Bool

-- `attention_mask.shape[1]`
abbrev pub width_of : List (List ℕ) → ℕ
width_of [] = 0
width_of (row ∷ rows) = length row

-- `stopping_criteria.max_new_tokens - stopping_criteria.current_tokens`
abbrev pub remaining : StoppingCriteria → ℤ
remaining s = sub_ℕ s.max_new_tokens s.current_tokens

unfoldable pub total_remaining : List StoppingCriteria → ℤ
total_remaining [] = pos 0
total_remaining (s ∷ ss) = remaining s +ℤ total_remaining ss

-- `max` over the requests, from 0 on.
unfoldable pub max_remaining : List StoppingCriteria → ℤ
max_remaining [] = pos 0
max_remaining (s ∷ ss) = max_ℤ (remaining s) (max_remaining ss)

unfoldable pub set_of_adapters : List Request → List ℕ → List ℕ
set_of_adapters [] s = s
set_of_adapters (r ∷ rs) s = set_of_adapters rs (add r.adapter_index s)
