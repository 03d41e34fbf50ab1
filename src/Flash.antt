-- ===== src/Flash.antt =====
-- server/lorax_server/models/flash_causal_lm.py: the batches of the causal language models that run
-- on paged attention. Tensors are lists, one list for each row where they have two dimensions.
pub mod Filter
pub mod Concatenate
pub mod Prefill
pub mod Texts
pub mod Forward
pub mod Generate
pub mod Life
use lorax.Prelude.{ℕ, Bool, Option, List}
use lorax.Prelude.Int.{ℤ}
use lorax.Tokens.Stopping.{StoppingCriteria}
use lorax.Tokens.Chooser.{Chooser, RequestParameters}

-- What the batch reads of a request.
pub record Request (F : Type 0) : Type 0 where
  pub id : ℕ
  pub adapter_index : ℕ
  pub parameters : RequestParameters F

-- `AdapterBatchMetadata` of server/lorax_server/adapters/weights.py.
pub record AdapterBatchMetadata : Type 0 where
  pub adapter_indices : List ℕ
  pub adapter_set : List ℕ
  pub adapter_segments : List ℕ
  pub segment_indices : List ℕ

pub record FlashCausalLmBatch (F Schema : Type 0) : Type 0 where
  pub batch_id : ℕ
  pub requests : List (Request F)
  pub requests_idx_mapping : List (ℕ × ℕ)
  pub input_ids : List ℕ
  pub position_ids : List ℕ
  pub speculative_ids : Option (List (List ℕ))
  pub cu_seqlen_prefill : Option (List ℕ)
  pub start_slots : List ℕ
  pub slot_indices : List ℕ
  pub block_tables : List (List ℕ)
  pub block_tables_tensor : List (List ℕ)
  pub slots : List ℕ
  pub max_seqlen : ℕ
  pub prefill_head_indices : Option (List ℕ)
  pub prefill_next_token_indices : Option (List ℕ)
  pub prefill_cu_outlens : Option (List ℕ)
  pub input_lengths : List ℕ
  pub input_lengths_tensor : List ℕ
  pub prefix_offsets : List ℤ
  pub read_offsets : List ℤ
  pub all_input_ids : List (List ℕ)
  pub all_input_ids_tensor : List (List ℕ)
  pub next_token_chooser : Chooser F Schema
  pub stopping_criterias : List StoppingCriteria
  pub adapter_meta : AdapterBatchMetadata
  pub num_blocks : ℕ
  pub max_blocks : ℕ
  pub prefill_cache_indices : Option (List ℕ)
