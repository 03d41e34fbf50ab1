-- ===== src/Lora/Prompt.antt =====
-- `BatchLoraWeights.load` for a prefill.
use lorax.Prelude.{
  ℕ, suc, ◌≡◌, refl, ◌∙◌, ap, arith, true, none, some, List, [], length, lookup, get_elem?,
}
use lorax.Flash.{AdapterBatchMetadata}
use lorax.Lora.{
  LoraWeights, AdapterWeights, RankSegments, BatchLoraWeights, lora_only, pointer, views_of,
}
use lorax.Lora.Load.{rank_data_of, load, prefill_heads}
use lorax.Lora.Held.{groups}
use lorax.Lora.Prefill.{Reads, round, ranks-return, ranks-read}
use lorax.Lora.Step.{subst2, segment_ranks-nonempty, pointer-lookup}

module _ {Tensor Config : Type 0} where
  load-returns :
      (data_ptr : Tensor → ℕ) (empty_tensor : Tensor)
      (adapter_weights : List (ℕ × AdapterWeights Tensor Config)) (meta : AdapterBatchMetadata)
      (i b : ℕ) (v : LoraWeights Tensor Config) (rank_data : List (ℕ × RankSegments))
      → get_elem? meta.segment_indices i ≡ some b
      → lookup b (lora_only adapter_weights) ≡ some v
      → rank_data_of data_ptr empty_tensor true (lora_only adapter_weights) meta none
        ≡ some rank_data
      → (batch : BatchLoraWeights Tensor Config) × (load data_ptr empty_tensor adapter_weights meta
            true none
          ≡ some (some batch))
        × (batch.rank_data ≡ rank_data)
  unfolding load prefill_heads
  load-returns data_ptr empty_tensor adapter_weights meta i b v rank_data h e f =
      let ws = lora_only adapter_weights in
      let (r, rs, g) = segment_ranks-nonempty ws meta.segment_indices i b v h e in
      (
        record {
          lora_a = views_of (λ w. w.weights_a) ws meta.segment_indices [];
          lora_b = views_of (λ w. w.weights_b) ws meta.segment_indices [];
          adapter_index_configs = views_of (λ w. w.adapter_config) ws meta.segment_indices [];
          rank_data = rank_data;
          use_sgmv = true;
        },
        ground (arith, g, f),
        refl,
      )

  -- In a prefill that predicts from every row, with one bound of segments more than there are
  -- segments, of which one has LoRA weights at least, `BatchLoraWeights.load` returns groups of
  -- ranks in which the SGMV kernels find each segment whose adapter has LoRA weights: in a row of
  -- the group of their rank, with the bounds of the segment and the pointers of its own adapter.
  pub load-Reads :
      (data_ptr : Tensor → ℕ) (empty_tensor : Tensor)
      (adapter_weights : List (ℕ × AdapterWeights Tensor Config)) (meta : AdapterBatchMetadata)
      (n b : ℕ) (v : LoraWeights Tensor Config)
      → length meta.adapter_segments ≡ suc (length meta.segment_indices)
      → get_elem? meta.segment_indices n ≡ some b
      → lookup b (lora_only adapter_weights) ≡ some v
      → (batch : BatchLoraWeights Tensor Config) × (load data_ptr empty_tensor adapter_weights meta
            true none
          ≡ some (some batch))
        × ((i a start end : ℕ) (w : LoraWeights Tensor Config)
            → get_elem? meta.segment_indices i ≡ some a
            → get_elem? meta.adapter_segments i ≡ some start
            → get_elem? meta.adapter_segments (suc i) ≡ some end
            → lookup a (lora_only adapter_weights) ≡ some w
            → (s : RankSegments) × (k : ℕ) × (lookup w.lora_a_r batch.rank_data ≡ some s)
              × Reads s k start end (data_ptr w.weights_a) (data_ptr w.weights_b))
  unfolding rank_data_of groups round
  load-Reads data_ptr empty_tensor adapter_weights meta n b v bounded h e =
      let ws = lora_only adapter_weights in
      let pa = pointer data_ptr empty_tensor (λ w. w.weights_a) ws in
      let pb = pointer data_ptr empty_tensor (λ w. w.weights_b) ws in
      let (rank_data, f) = ranks-return ws meta bounded pa pb in
      let (batch, g, same) =
        load-returns data_ptr empty_tensor adapter_weights meta n b v rank_data h e f in
      (
        batch,
        g,
        λ i a start end w p q r l.
            let (s, k, here, reads) =
              ranks-read ws meta bounded pa pb rank_data f i a start end w p q r l in
            (
              s,
              k,
              ap (lookup w.lora_a_r) same ∙ here,
              subst2 (Reads s k start end)
                  (pointer-lookup data_ptr empty_tensor (λ w. w.weights_a) ws a w l)
                  (pointer-lookup data_ptr empty_tensor (λ w. w.weights_b) ws a w l) reads,
            ),
      )
