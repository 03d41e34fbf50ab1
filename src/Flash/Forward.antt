-- ===== src/Flash/Forward.antt =====
-- `FlashCausalLM.forward` and the head of `generate_token`: what the model is handed for a batch,
-- with a row for each speculated token.
use mathlib.Core.List.{flatten}
pub mod Slots
use lorax.Prelude.{
  ℕ, ◌+◌, ◌*◌, Option, none, some, List, [], ◌∷◌, ◌++◌, map, length, replicate, gather, ◌>>=◌,
}
use lorax.Tokens.Ngram.{arange}
use lorax.Flash.{AdapterBatchMetadata, FlashCausalLmBatch}
use lorax.Flash.Concatenate.{width_of}

-- The arguments of `model.forward`.
pub record ForwardInputs : Type 0 where
  pub input_ids : List ℕ
  pub position_ids : List ℕ
  pub cu_seqlen_prefill : Option (List ℕ)
  pub block_tables : List (List ℕ)
  pub slots : List ℕ
  pub input_lengths : List ℕ
  pub max_s : ℕ
  pub prefill_cache_indices : Option (List ℕ)
  pub lm_head_indices : Option (List ℕ)

-- `torch.cat([input_ids.unsqueeze(-1), speculative_ids], dim=1)`, row by row.
unfoldable pub cat_rows : List ℕ → List (List ℕ) → Option (List ℕ)
cat_rows [] [] = some []
cat_rows [] (row ∷ rows) = none
cat_rows (id ∷ ids) [] = none
cat_rows (id ∷ ids) (row ∷ rows) = do rest ← cat_rows ids rows; some (id ∷ row ++ rest)

-- `(xs.unsqueeze(-1).expand(B, n) + arange).view(-1)`
unfoldable pub expand_ranges : ℕ → List ℕ → List ℕ
unfolding arange
expand_ranges n [] = []
expand_ranges n (x ∷ xs) = arange x n ++ expand_ranges n xs

-- `xs.unsqueeze(1).expand(B, n, -1).reshape(B * n, -1)`
unfoldable pub repeat_each : {A : Type 0} → ℕ → List A → List A
repeat_each n [] = []
repeat_each n (x ∷ xs) = replicate n x ++ repeat_each n xs

module _ {F Schema : Type 0} where
  unfoldable pub forward_inputs : FlashCausalLmBatch F Schema → Option ForwardInputs
  unfolding cat_rows expand_ranges repeat_each
  forward_inputs b = do
    slots ← gather b.slots b.slot_indices
    elim b.speculative_ids [
      | none ↦ some (record {
        input_ids = b.input_ids;
        position_ids = b.position_ids;
        cu_seqlen_prefill = b.cu_seqlen_prefill;
        block_tables = b.block_tables_tensor;
        slots = slots;
        input_lengths = b.input_lengths_tensor;
        max_s = b.max_seqlen;
        prefill_cache_indices = b.prefill_cache_indices;
        lm_head_indices = b.prefill_head_indices;
      })
      | some speculative_ids ↦ cat_rows b.input_ids speculative_ids >>= λ input_ids.
          let new_length = width_of (some speculative_ids) + 1 in
          some (record {
            input_ids = input_ids;
            position_ids = expand_ranges new_length b.position_ids;
            cu_seqlen_prefill = b.cu_seqlen_prefill;
            block_tables = repeat_each new_length b.block_tables_tensor;
            slots = expand_ranges new_length slots;
            input_lengths = expand_ranges new_length b.input_lengths_tensor;
            max_s = b.max_seqlen + width_of (some speculative_ids);
            prefill_cache_indices = b.prefill_cache_indices;
            lm_head_indices = b.prefill_head_indices;
          })
    ]

  -- "Update adapter indices for speculative tokens (if present)"
  pub speculative_meta : FlashCausalLmBatch F Schema → AdapterBatchMetadata
  unfolding repeat_each
  speculative_meta b = elim b.speculative_ids [
    | none ↦ b.adapter_meta
    | some speculative_ids ↦
        let new_length = width_of (some speculative_ids) + 1 in
        record b.adapter_meta {
          adapter_indices = repeat_each new_length b.adapter_meta.adapter_indices;
          adapter_segments = map (λ s. s * new_length) b.adapter_meta.adapter_segments;
        }
  ]
