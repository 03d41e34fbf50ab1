-- ===== src/Lora.antt =====
-- `BatchLoraWeights.load` of server/lorax_server/adapters/lora.py: the pointers, segments and
-- indices that the SGMV and BGMV kernels are handed for the LoRA weights of a batch, in one group
-- for each rank. The scratch tensors `tmp_shrink` and `tmp_expand` are left out.
pub mod Load
pub mod Groups
pub mod Locations
pub mod Ranks
pub mod Decode
pub mod Held
pub mod Places
pub mod Prompt
pub mod Prefill
pub mod Applied
pub mod Step
pub mod Heads
use lorax.Prelude.Int.{ℤ, pos, negsuc}
use lorax.Prelude.{
  ℕ, suc, ◌+◌, Bool, true, false, ◌||◌, Option, none, some, List, [], ◌∷◌, ◌++◌, map, ltb, ◌==◌,
  if◌then◌else◌, gather, lookup, put, get_elem?, ◌>>=◌,
}

-- The weights of one adapter. A view is the tensor that the property of its name returns.
pub record LoraWeights (Tensor Config : Type 0) : Type 0 where
  pub lora_a_r : ℕ
  pub weights_a : Tensor
  pub weights_b : Tensor
  pub weights_a_t : Tensor
  pub weights_b_t : Tensor
  pub adapter_config : Config

-- `with_lora` is an object with an attribute `lora_weights`, which may be None.
pub data AdapterWeights (Tensor Config : Type 0) : Type 0 where
  lora : LoraWeights Tensor Config → AdapterWeights Tensor Config
  with_lora : Option (LoraWeights Tensor Config) → AdapterWeights Tensor Config
  other : AdapterWeights Tensor Config

pub record RankSegments : Type 0 where
  pub rank : ℕ
  pub lora_a_ptr : List ℕ
  pub lora_b_ptr : List ℕ
  pub segment_starts : Option (List ℕ)
  pub segment_ends : Option (List ℕ)
  pub indices : Option (List ℤ)

pub record BatchLoraWeights (Tensor Config : Type 0) : Type 0 where
  pub lora_a : List (ℕ × Tensor)
  pub lora_b : List (ℕ × Tensor)
  pub adapter_index_configs : List (ℕ × Config)
  pub rank_data : List (ℕ × RankSegments)
  pub use_sgmv : Bool

unfoldable pub entries : Option (List ℕ) → List ℕ
entries none = []
entries (some xs) = xs

module _ {Tensor Config : Type 0} where
  -- `isinstance(_convert_lora(v), LoraWeights)`
  unfoldable pub convert_lora : AdapterWeights Tensor Config → Option (LoraWeights Tensor Config)
  convert_lora (lora w) = some w
  convert_lora (with_lora w) = w
  convert_lora other = none

  unfoldable pub lora_only :
      List (ℕ × AdapterWeights Tensor Config) → List (ℕ × LoraWeights Tensor Config)
  lora_only [] = []
  lora_only ((k, v) ∷ adapter_weights) =
      let rest = lora_only adapter_weights in
      elim (convert_lora v) [ none ↦ rest | some w ↦ (k, w) ∷ rest ]

  -- `{idx: view(adapter_weights[idx]) for idx in segment_indices if idx in adapter_weights}`
  unfoldable pub views_of :
      {A : Type 0}
      → (LoraWeights Tensor Config → A)
      → List (ℕ × LoraWeights Tensor Config)
      → List ℕ
      → List (ℕ × A)
      → List (ℕ × A)
  views_of view ws [] d = d
  views_of view ws (idx ∷ segment_indices) d = elim (lookup idx ws) [
    | none ↦ views_of view ws segment_indices d
    | some w ↦ views_of view ws segment_indices (put idx (view w) d)
  ]

  unfoldable pub segment_ranks : List (ℕ × LoraWeights Tensor Config) → List ℕ → List ℕ
  segment_ranks ws [] = []
  segment_ranks ws (idx ∷ segment_indices) =
      let rest = segment_ranks ws segment_indices in
      elim (lookup idx ws) [ none ↦ rest | some w ↦ w.lora_a_r ∷ rest ]

  -- The loop that fills `rank_indices`, from segment `i` on.
  unfoldable pub group_ranks :
      List (ℕ × LoraWeights Tensor Config) → ℕ → List ℕ → List (ℕ × List ℕ) → List (ℕ × List ℕ)
  unfolding entries
  group_ranks ws i [] d = d
  group_ranks ws i (idx ∷ segment_indices) d = elim (lookup idx ws) [
    | none ↦ group_ranks ws (i + 1) segment_indices d
    | some w ↦
        group_ranks ws (i + 1) segment_indices
          (put w.lora_a_r (entries (lookup w.lora_a_r d) ++ i ∷ []) d)
  ]

  module _ (data_ptr : Tensor → ℕ) (empty_tensor : Tensor) where
    -- The pointer of a segment; `empty_tensor` is EMPTY_TENSOR.
    unfoldable pub pointer :
        (LoraWeights Tensor Config → Tensor) → List (ℕ × LoraWeights Tensor Config) → ℕ → ℕ
    pointer view ws idx = elim (lookup idx ws) [
      | none ↦ data_ptr empty_tensor
      | some w ↦ data_ptr (view w)
    ]
