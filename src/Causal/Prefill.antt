-- ===== src/Causal/Prefill.antt =====
-- `CausalLMBatch.from_pb`: the batch of new requests.
pub mod Keeps
use lorax.Prelude.{
  ℕ, zero, suc, ◌+◌, ◌-◌, ◌*◌, max, Bool, true, false, Option, none, some, List, [], ◌∷◌, ◌++◌, map,
  ◌==◌, if◌then◌else◌, length, replicate, ◌>>=◌,
}
use lorax.Prelude.Int.{ℤ, pos, sub_ℕ}
use lorax.Segments.{find_segments}
use lorax.Tokens.Stopping.{
  Text, StoppingCriteria, StoppingParameters, EosTokenId, from_pb as criteria_of,
}
use lorax.Flash.{AdapterBatchMetadata}
use lorax.Flash.Filter.{renumber, sum, maximum}
use lorax.Flash.Texts.{slice}
use lorax.Causal.{Request, CausalLmBatch, width_of, set_of_adapters}
use lorax.Causal.Concatenate.{each, write_row}

-- A request of the router. `P` are the parameters of the choosers.
pub record PbRequest (P : Type 0) : Type 0 where
  pub request : Request
  pub inputs : Text
  pub truncate : ℕ
  pub parameters : P
  pub stopping_parameters : StoppingParameters

-- The tokenizer pads a list of texts, each cut to the maximum length, to rows of one length: their
-- ids and their attention mask. `choose` is `NextTokenChooser.from_pb`. `none` is an exception.
pub record Tokenizer (P C : Type 0) : Type 0 where
  pub tokenize : List Text → ℕ → Option (List (List ℕ) × List (List ℕ))
  pub eos_token_id : EosTokenId
  pub chooser_of : P → Option C

-- `attention_mask.long().cumsum(-1) - 1`, with 1 where the mask is 0; the sum so far is `total`.
unfoldable pub positions : ℕ → List ℕ → List ℕ
positions total [] = []
positions total (m ∷ row) = (if m == 0 then 1 else total + m - 1) ∷ positions (total + m) row

unfoldable pub max_new_tokens_of : List StoppingCriteria → List ℕ
max_new_tokens_of ss = map (λ s. s.max_new_tokens) ss

-- `tensor.max()`, which raises on an empty tensor.
unfoldable pub largest : List ℕ → Option ℕ
unfolding maximum
largest [] = none
largest (n ∷ ns) = some (maximum (n ∷ ns))

module _ {P C : Type 0} (K : Type 0) (t : Tokenizer P C) where
  -- `batch_id` and the requests are those of the message; `pb.size` is their number.
  unfoldable pub from_pb : ℕ → List (PbRequest P) → Option (CausalLmBatch C K)
  unfolding largest positions max_new_tokens_of each write_row set_of_adapters renumber sum maximum
  from_pb batch_id requests = do
    choosers ← each (λ r. t.chooser_of r.parameters) requests
    (input_ids, mask) ←
        t.tokenize (map (λ r. r.inputs) requests) (maximum (map (λ r. r.truncate) requests))
    let criterias = map (λ r. criteria_of r.stopping_parameters t.eos_token_id) requests
    let padding = maximum (max_new_tokens_of criterias)
    let input_lengths = map sum mask
    max_input_length ← largest input_lengths
    let adapter_indices = map (λ r. r.request.adapter_index) requests
    let (adapter_segments, segment_indices) = find_segments adapter_indices
    let input_len = width_of input_ids
    attention_mask ←
        each (λ row. write_row 0 (max_input_length + padding) (pos 0) (pos max_input_length) row)
          mask
    some (record {
      batch_id = batch_id;
      requests = map (λ r. r.request) requests;
      requests_idx_mapping = renumber 0 (map (λ r. r.request.id) requests) [];
      input_ids = input_ids;
      attention_mask = attention_mask;
      position_ids = map (positions 0) mask;
      past_key_values = none;
      all_input_ids = input_ids;
      input_lengths = input_lengths;
      prefix_offsets = map (λ r. sub_ℕ input_len 5) requests;
      read_offsets = map (λ r. pos input_len) requests;
      next_token_choosers = choosers;
      stopping_criterias = criterias;
      adapter_meta = record {
        adapter_indices = adapter_indices;
        adapter_set = set_of_adapters (map (λ r. r.request) requests) [];
        adapter_segments = adapter_segments;
        segment_indices = segment_indices;
      };
      max_input_length = max_input_length;
      padding_right_offset = pos padding;
      max_tokens = pos (length requests * (max_input_length + sum (max_new_tokens_of criterias)));
      keys_head_dim_last = true;
    })
