-- ===== src/Lora/Load.antt =====
-- The groups of ranks of a batch, and `BatchLoraWeights.load`.
use mathlib.Core.Option
use lorax.Prelude.Int.{ℤ, pos, negsuc}
use lorax.Prelude.{
  ℕ, suc, ◌+◌, Bool, ◌||◌, Option, none, some, List, [], ◌∷◌, ◌++◌, map, ltb, ◌==◌, if◌then◌else◌,
  gather, lookup, put, get_elem?, ◌>>=◌,
}
use lorax.Flash.{AdapterBatchMetadata}
use lorax.Flash.Filter.{maximum}
use lorax.Lora.{
  LoraWeights, AdapterWeights, RankSegments, BatchLoraWeights, lora_only, views_of, segment_ranks,
  group_ranks, pointer,
}

abbrev pub bgmv_max_rank : ℕ
bgmv_max_rank = 64

-- The loop over the head indices: `j`, and the starts and ends of the segments, where `ends` is
-- without its last item, which is `end`. `none` is an IndexError.
unfoldable pub head_segments : List ℕ → ℕ → List ℕ → List ℕ → ℕ → List ℕ → Option (List ℕ × List ℕ)
head_segments adapter_segments j starts ends end [] = some (starts, ends ++ end ∷ [])
head_segments adapter_segments j starts ends end (head_index ∷ head_indices) =
    let same = head_segments adapter_segments j starts ends (end + 1) head_indices in
    let next =
      head_segments adapter_segments (j + 1) (starts ++ end ∷ []) (ends ++ end ∷ []) (end + 1)
        head_indices in
    get_elem? adapter_segments j >>= λ bound. if ltb head_index bound then same else next

-- `prefill_head_segment_starts` and `prefill_head_segment_ends`, where there are head indices.
unfoldable pub prefill_heads : List ℕ → Option (List ℕ) → Option (Option (List ℕ × List ℕ))
prefill_heads adapter_segments none = some none
prefill_heads adapter_segments (some head_indices) =
    Option.map some (head_segments adapter_segments 1 (0 ∷ []) [] 0 head_indices)

-- The dict `idx_locs`, from location `loc` on.
unfoldable pub locations : List ℕ → ℕ → List ℕ → List (ℕ × ℕ) → Option (List (ℕ × ℕ))
locations segment_indices loc [] idx_locs = some idx_locs
locations segment_indices loc (idx ∷ indices) idx_locs = do
  adapter_index ← get_elem? segment_indices idx
  locations segment_indices (loc + 1) indices (elim (lookup adapter_index idx_locs) [
    | none ↦ put adapter_index loc idx_locs
    | some first ↦ idx_locs
  ])

-- One round of the loop over `rank_indices` where `use_sgmv` holds.
unfoldable pub sgmv_segments :
    AdapterBatchMetadata
    → Option (List ℕ × List ℕ)
    → List ℕ
    → List ℕ
    → ℕ
    → List ℕ
    → Option RankSegments
sgmv_segments meta heads a_ptr b_ptr rank indices = do
  starts ← gather meta.adapter_segments indices
  ends ← gather meta.adapter_segments (map suc indices)
  (segment_starts, segment_ends) ← elim heads [
    | none ↦ some (starts, ends)
    | some (head_starts, head_ends) ↦
        gather head_starts indices >>= λ s. gather head_ends indices >>= λ e. some (s, e)
  ]
  lora_a_ptr ← gather a_ptr indices
  lora_b_ptr ← gather b_ptr indices
  some (record {
    rank = rank;
    lora_a_ptr = lora_a_ptr;
    lora_b_ptr = lora_b_ptr;
    segment_starts = some segment_starts;
    segment_ends = some segment_ends;
    indices = none;
  })

-- The loop over `rank_indices`.
unfoldable pub fill_ranks :
    (ℕ → List ℕ → Option RankSegments) → List (ℕ × List ℕ) → Option (List (ℕ × RankSegments))
fill_ranks round [] = some []
fill_ranks round ((rank, indices) ∷ rank_indices) = do
  segments ← round rank indices
  rest ← fill_ranks round rank_indices
  some ((rank, segments) ∷ rest)

module _ {Tensor Config : Type 0} where
  -- `idx_locs[idx] if idx in adapter_weights and adapter_weights[idx].lora_a_r == rank else -1`
  unfoldable pub batch_index :
      List (ℕ × LoraWeights Tensor Config) → List (ℕ × ℕ) → ℕ → ℕ → Option ℤ
  batch_index ws idx_locs rank idx = elim (lookup idx ws) [
    | none ↦ some (negsuc 0)
    | some w ↦ if w.lora_a_r == rank then Option.map pos (lookup idx idx_locs) else some (negsuc 0)
  ]

  unfoldable pub batch_indices :
      List (ℕ × LoraWeights Tensor Config) → List (ℕ × ℕ) → ℕ → List ℕ → Option (List ℤ)
  batch_indices ws idx_locs rank [] = some []
  batch_indices ws idx_locs rank (idx ∷ adapter_indices) = do
    i ← batch_index ws idx_locs rank idx
    rest ← batch_indices ws idx_locs rank adapter_indices
    some (i ∷ rest)

  -- One round where it does not.
  unfoldable pub bgmv_segments :
      List (ℕ × LoraWeights Tensor Config)
      → AdapterBatchMetadata
      → List ℕ
      → List ℕ
      → ℕ
      → List ℕ
      → Option RankSegments
  bgmv_segments ws meta a_ptr b_ptr rank indices = do
    idx_locs ← locations meta.segment_indices 0 indices []
    batch_indices ← batch_indices ws idx_locs rank meta.adapter_indices
    lora_a_ptr ← gather a_ptr indices
    lora_b_ptr ← gather b_ptr indices
    some (record {
      rank = rank;
      lora_a_ptr = lora_a_ptr;
      lora_b_ptr = lora_b_ptr;
      segment_starts = none;
      segment_ends = none;
      indices = some batch_indices;
    })

  module _ (data_ptr : Tensor → ℕ) (empty_tensor : Tensor) where
    -- The groups of ranks, with the pointers of the orientation that the kernels read.
    unfoldable pub rank_data_of :
        Bool
        → List (ℕ × LoraWeights Tensor Config)
        → AdapterBatchMetadata
        → Option (List ℕ × List ℕ)
        → Option (List (ℕ × RankSegments))
    rank_data_of use_sgmv ws meta heads =
        let rank_indices = group_ranks ws 0 meta.segment_indices [] in
        if use_sgmv
        then fill_ranks
            (sgmv_segments meta heads
              (map (pointer data_ptr empty_tensor (λ w. w.weights_a) ws) meta.segment_indices)
              (map (pointer data_ptr empty_tensor (λ w. w.weights_b) ws) meta.segment_indices))
            rank_indices
        else fill_ranks
            (bgmv_segments ws meta
              (map (pointer data_ptr empty_tensor (λ w. w.weights_a_t) ws) meta.segment_indices)
              (map (pointer data_ptr empty_tensor (λ w. w.weights_b_t) ws) meta.segment_indices))
            rank_indices

    unfoldable pub load :
        List (ℕ × AdapterWeights Tensor Config)
        → AdapterBatchMetadata
        → Bool
        → Option (List ℕ)
        → Option (Option (BatchLoraWeights Tensor Config))
    unfolding rank_data_of
    load adapter_weights meta prefill prefill_head_indices =
        let ws = lora_only adapter_weights in
        elim (segment_ranks ws meta.segment_indices) [
          | [] ↦ some none
          | r ∷ ranks ↦
              let use_sgmv = prefill || ltb bgmv_max_rank (maximum (r ∷ ranks)) in
              prefill_heads meta.adapter_segments prefill_head_indices >>= λ heads.
              rank_data_of use_sgmv ws meta heads >>= λ rank_data. some (
                some (record {
                  lora_a = views_of (λ w. w.weights_a) ws meta.segment_indices [];
                  lora_b = views_of (λ w. w.weights_b) ws meta.segment_indices [];
                  adapter_index_configs =
                      views_of (λ w. w.adapter_config) ws meta.segment_indices [];
                  rank_data = rank_data;
                  use_sgmv = use_sgmv;
                }))
        ]
