-- ===== src/Causal/Padded.antt =====
-- The shape of a padded batch, and what the model attends to of each request.
use mathlib.Core.Option
use lorax.Prelude.{ℕ, ◌+◌, ◌-◌, ◌≤◌, ◌≡◌, Option, some, List, [], ◌∷◌, map, length}
use lorax.Prelude.Int.{pos}
use lorax.Flash.Filter.{maximum}
use lorax.Flash.Prefill.{last_n}
use lorax.Causal.{Layer, CausalLmBatch}
use lorax.Causal.Rows.{mask_row, attend, zip_with, All}

-- A batch whose requests have `p` more places at the right: the mask has 1 at the tokens of each
-- request and 0 at the padding to the left and at the places to the right, each request stands at
-- its last token, and has no more than `p` tokens left to generate.
pub record IsPadded {C K : Type 0} (b : CausalLmBatch C K) (p : ℕ) : Type 0 where
  pub padding : b.padding_right_offset ≡ pos p
  pub longest : b.max_input_length ≡ maximum b.input_lengths
  pub mask : b.attention_mask ≡ map (mask_row b.max_input_length p) b.input_lengths
  pub placed : map (last_n 1) b.position_ids ≡ map (λ n. (n - 1) ∷ []) b.input_lengths
  pub counted : length b.input_lengths ≡ length b.requests
  pub room : All (λ s. s.max_new_tokens ≤ s.current_tokens + p) b.stopping_criterias

-- The past of `size` requests at `width` positions.
pub record IsWide {K : Type 0} (size width : ℕ) (layer : Layer K) : Type 0 where
  pub key_rows : length layer.keys ≡ size
  pub value_rows : length layer.values ≡ size
  pub key_width : All (λ row. length row ≡ width) layer.keys
  pub value_width : All (λ row. length row ≡ width) layer.values

-- A batch that has done a step: it has the keys and values of all tokens but the last, each request
-- has two tokens at least, and one input and one position.
pub record HasPast {C K : Type 0} (b : CausalLmBatch C K) (layer : Layer K)
    (layers : List (Layer K)) : Type 0 where
  pub past : b.past_key_values ≡ some (layer ∷ layers)
  pub wide : All (IsWide (length b.requests) (b.max_input_length - 1)) (layer ∷ layers)
  pub grown : All (λ n. 2 ≤ n) b.input_lengths
  pub inputs : length b.input_ids ≡ length b.requests
  pub input_column : All (λ row. length row ≡ 1) b.input_ids
  pub position_column : All (λ row. length row ≡ 1) b.position_ids

-- The keys and values that the model attends to, of each layer and request.
unfoldable pub attended_layer : {K : Type 0} → List (List ℕ) → Layer K → Layer K
unfolding zip_with attend
attended_layer mask layer = record {
  keys = zip_with attend mask layer.keys;
  values = zip_with attend mask layer.values;
}

unfoldable pub attended : {C K : Type 0} → CausalLmBatch C K → Option (List (Layer K))
unfolding attended_layer
attended b = Option.map (map (attended_layer b.attention_mask)) b.past_key_values
