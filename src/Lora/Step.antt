-- ===== src/Lora/Step.antt =====
-- `BatchLoraWeights.load` for a decode step.
use lorax.Prelude.{
  ℕ, zero, suc, ◌≡◌, refl, subst, arith, false, none, some, List, [], ◌∷◌, Option-cases, inl, inr,
  ltb, lookup, get_elem?, ◌≤◌,
}
use lorax.Flash.{AdapterBatchMetadata}
use lorax.Flash.Filter.{maximum}
use lorax.Lora.{
  LoraWeights, AdapterWeights, RankSegments, BatchLoraWeights, lora_only, segment_ranks, pointer,
  views_of,
}
use lorax.Lora.Load.{rank_data_of, load, bgmv_max_rank, prefill_heads}
use lorax.Lora.Decode.{IsCovered}
use lorax.Lora.Applied.{AppliedOnce, SkippedByAll, round, ranks-return, ranks-apply}
use lorax.Lora.Held.{groups}

pub subst2 : (P : ℕ → ℕ → Type 0) {a b c d : ℕ} → a ≡ b → c ≡ d → P a c → P b d
subst2 P {b = b} {c = c} p q x = subst (P b) q (subst (λ a. P a c) p x)

module _ {Tensor Config : Type 0} where
  pub segment_ranks-nonempty :
      (ws : List (ℕ × LoraWeights Tensor Config)) (segment_indices : List ℕ) (i a : ℕ)
      (w : LoraWeights Tensor Config)
      → get_elem? segment_indices i ≡ some a
      → lookup a ws ≡ some w
      → (r : ℕ) × (rs : List ℕ) × (segment_ranks ws segment_indices ≡ r ∷ rs)
  unfolding segment_ranks
  segment_ranks-nonempty ws [] i a w h e = ground arith
  segment_ranks-nonempty ws (idx ∷ xs) zero a w h e =
      (w.lora_a_r, segment_ranks ws xs, ground (arith, h, e))
  segment_ranks-nonempty ws (idx ∷ xs) (suc i) a w h e = elim (Option-cases (lookup idx ws)) [
    | inl f ↦
        let (r, rs, g) = segment_ranks-nonempty ws xs i a w h e in (r, rs, ground (arith, f, g))
    | inr (v, f) ↦ (v.lora_a_r, segment_ranks ws xs, ground (arith, f))
  ]

  pub pointer-lookup :
      (data_ptr : Tensor → ℕ) (empty_tensor : Tensor) (view : LoraWeights Tensor Config → Tensor)
      (ws : List (ℕ × LoraWeights Tensor Config)) (a : ℕ) (w : LoraWeights Tensor Config)
      → lookup a ws ≡ some w
      → pointer data_ptr empty_tensor view ws a ≡ data_ptr (view w)
  unfolding pointer lookup
  pointer-lookup data_ptr empty_tensor view ws a w h = ground (arith, h)

  load-returns :
      (data_ptr : Tensor → ℕ) (empty_tensor : Tensor)
      (adapter_weights : List (ℕ × AdapterWeights Tensor Config)) (meta : AdapterBatchMetadata)
      (i b : ℕ) (v : LoraWeights Tensor Config) (rank_data : List (ℕ × RankSegments))
      → maximum (segment_ranks (lora_only adapter_weights) meta.segment_indices) ≤ bgmv_max_rank
      → get_elem? meta.segment_indices i ≡ some b
      → lookup b (lora_only adapter_weights) ≡ some v
      → rank_data_of data_ptr empty_tensor false (lora_only adapter_weights) meta none
        ≡ some rank_data
      → (batch : BatchLoraWeights Tensor Config) × (load data_ptr empty_tensor adapter_weights meta
            false none
          ≡ some (some batch))
        × (batch.rank_data ≡ rank_data)
  unfolding load prefill_heads
  load-returns data_ptr empty_tensor adapter_weights meta i b v rank_data low h e f =
      let ws = lora_only adapter_weights in
      let (r, rs, g) = segment_ranks-nonempty ws meta.segment_indices i b v h e in
      let small : ltb bgmv_max_rank (maximum (r ∷ rs)) ≡ false = ground (arith, low, g) in
      (
        record {
          lora_a = views_of (λ w. w.weights_a) ws meta.segment_indices [];
          lora_b = views_of (λ w. w.weights_b) ws meta.segment_indices [];
          adapter_index_configs = views_of (λ w. w.adapter_config) ws meta.segment_indices [];
          rank_data = rank_data;
          use_sgmv = false;
        },
        ground (arith, g, small, f),
        refl,
      )

  -- In a decode step whose ranks are at most 64, where the adapter of each token has a segment and
  -- some segment has LoRA weights, `BatchLoraWeights.load` returns groups of ranks by which the
  -- BGMV kernels apply to each token the weights of its own adapter, by the group of their rank
  -- alone, and no weights to a token whose adapter has none.
  pub load-AppliedOnce :
      (data_ptr : Tensor → ℕ) (empty_tensor : Tensor)
      (adapter_weights : List (ℕ × AdapterWeights Tensor Config)) (meta : AdapterBatchMetadata)
      (i b : ℕ) (v : LoraWeights Tensor Config)
      → IsCovered meta
      → maximum (segment_ranks (lora_only adapter_weights) meta.segment_indices) ≤ bgmv_max_rank
      → get_elem? meta.segment_indices i ≡ some b
      → lookup b (lora_only adapter_weights) ≡ some v
      → (batch : BatchLoraWeights Tensor Config) × (load data_ptr empty_tensor adapter_weights meta
            false none
          ≡ some (some batch))
        × ((t a : ℕ)
            → get_elem? meta.adapter_indices t ≡ some a
            → (lookup a (lora_only adapter_weights) ≡ none → SkippedByAll batch.rank_data t)
              × ((w : LoraWeights Tensor Config)
                  → lookup a (lora_only adapter_weights) ≡ some w
                  → AppliedOnce batch.rank_data w.lora_a_r t
                      (data_ptr w.weights_a_t)
                      (data_ptr w.weights_b_t)))
  unfolding rank_data_of groups round
  load-AppliedOnce data_ptr empty_tensor adapter_weights meta i b v covered low h e =
      let ws = lora_only adapter_weights in
      let pa = pointer data_ptr empty_tensor (λ w. w.weights_a_t) ws in
      let pb = pointer data_ptr empty_tensor (λ w. w.weights_b_t) ws in
      let (rank_data, f) = ranks-return ws meta covered pa pb in
      let (batch, g, same) =
        load-returns data_ptr empty_tensor adapter_weights meta i b v rank_data low h e f in
      (
        batch,
        g,
        λ t a k.
            let (skipped, applied) = ranks-apply ws meta covered pa pb rank_data f t a k in
            rw same (
              skipped,
              λ w e'.
                  subst2 (AppliedOnce rank_data w.lora_a_r t)
                    (pointer-lookup data_ptr empty_tensor (λ w. w.weights_a_t) ws a w e')
                    (pointer-lookup data_ptr empty_tensor (λ w. w.weights_b_t) ws a w e')
                    (applied w e'),
            ),
      )
