-- ===== src/Lora/Prefill.antt =====
-- The batch of a prefill: what the SGMV kernels read for each segment.
use lorax.Prelude.{
  ℕ, suc, ◌≡◌, refl, sym, subst, ◌∙◌, ap, arith, Option, none, some, List, [], map, length, lookup,
  get_elem?, get_elem?-map, ◌>>=◌,
}
use lorax.Flash.{AdapterBatchMetadata}
use lorax.Lora.{LoraWeights, RankSegments}
use lorax.Lora.Load.{sgmv_segments, fill_ranks}
use lorax.Lora.Groups.{
  IsDict, segments_of, group_ranks-IsDict, lookup-fill_ranks, fill_ranks-returns,
}
use lorax.Lora.Ranks.{adapters_of, adapters_of-finds, gather-map, gather-segments_of}
use lorax.Lora.Held.{groups, group_of, has_group}
use lorax.Lora.Places.{
  AllBelow, gather-returns, gather-get_elem?, AllBelow-map, AllBelow-more, segments_of-below,
  segments_of-finds,
}

-- Row `k` of the group has the segment from `start` to `end` and the pointers.
unfoldable pub Reads : RankSegments → ℕ → ℕ → ℕ → ℕ → ℕ → Type 0
Reads s k start end a_ptr b_ptr =
    (starts : List ℕ) × (ends : List ℕ) × (s.segment_starts ≡ some starts)
    × (s.segment_ends ≡ some ends)
    × (get_elem? starts k ≡ some start)
    × (get_elem? ends k ≡ some end)
    × (get_elem? s.lora_a_ptr k ≡ some a_ptr)
    × (get_elem? s.lora_b_ptr k ≡ some b_ptr)

get_elem?-map-suc :
    (is : List ℕ) (k i : ℕ) → get_elem? is k ≡ some i → get_elem? (map suc is) k ≡ some (suc i)
get_elem?-map-suc is k i h = get_elem?-map suc is k i h

module _ {Tensor Config : Type 0} (ws : List (ℕ × LoraWeights Tensor Config))
    (meta : AdapterBatchMetadata)
    (bounded : length meta.adapter_segments ≡ suc (length meta.segment_indices)) where
  unfoldable pub round : (ℕ → ℕ) → (ℕ → ℕ) → ℕ → List ℕ → Option RankSegments
  round pa pb = sgmv_segments meta none (map pa meta.segment_indices) (map pb meta.segment_indices)

  in_range :
      (rank : ℕ)
      → AllBelow (length meta.segment_indices) (segments_of ws rank 0 meta.segment_indices)
  in_range rank =
      subst (λ n. AllBelow n (segments_of ws rank 0 meta.segment_indices)) (omega arith)
        (segments_of-below ws rank 0 meta.segment_indices)

  round-returns :
      (pa pb : ℕ → ℕ) (rank : ℕ)
      → (s : RankSegments) × (round pa pb rank (segments_of ws rank 0 meta.segment_indices)
          ≡ some s)
        × ((k i a start end : ℕ)
            → get_elem? (segments_of ws rank 0 meta.segment_indices) k ≡ some i
            → get_elem? meta.segment_indices i ≡ some a
            → get_elem? meta.adapter_segments i ≡ some start
            → get_elem? meta.adapter_segments (suc i) ≡ some end
            → Reads s k start end (pa a) (pb a))
  unfolding round sgmv_segments Reads
  round-returns pa pb rank =
      let is = segments_of ws rank 0 meta.segment_indices in
      let below = in_range rank in
      let adapters = adapters_of ws rank meta.segment_indices in
      let kept = gather-segments_of ws rank meta.segment_indices in
      let (starts, s) = gather-returns meta.adapter_segments is (
        AllBelow-more (length meta.segment_indices) (length meta.adapter_segments) is
          (omega (arith, bounded)) below) in
      let (ends, e) = gather-returns meta.adapter_segments (map suc is) (
        subst (λ n. AllBelow n (map suc is)) (sym bounded)
          (AllBelow-map (length meta.segment_indices) is below)) in
      (
        record {
          rank = rank;
          lora_a_ptr = map pa adapters;
          lora_b_ptr = map pb adapters;
          segment_starts = some starts;
          segment_ends = some ends;
          indices = none;
        },
        rw
            (
              s,
              e,
              gather-map pa meta.segment_indices is adapters kept,
              gather-map pb meta.segment_indices is adapters kept,
            )
            refl,
        λ k i a start end h g p q.
            let at = gather-get_elem? meta.segment_indices is adapters k i a kept h g in
            (
              starts,
              ends,
              refl,
              refl,
              gather-get_elem? meta.adapter_segments is starts k i start s h p,
              gather-get_elem? meta.adapter_segments (map suc is) ends k (suc i) end e
                  (get_elem?-map-suc is k i h) q,
              get_elem?-map pa adapters k a at,
              get_elem?-map pb adapters k a at,
            ),
      )

  pub ranks-return :
      (pa pb : ℕ → ℕ)
      → (rank_data : List (ℕ × RankSegments)) × (fill_ranks (round pa pb) (groups ws meta)
          ≡ some rank_data)
  unfolding groups IsDict
  ranks-return pa pb =
      fill_ranks-returns (round pa pb) (groups ws meta)
        (group_ranks-IsDict ws 0 meta.segment_indices [] tt)
        (λ rank indices h.
          let (s, e, _) = round-returns pa pb rank in
          (s, ap (round pa pb rank) (group_of ws meta.segment_indices rank indices h) ∙ e))

  pub ranks-read :
      (pa pb : ℕ → ℕ) (rank_data : List (ℕ × RankSegments))
      → fill_ranks (round pa pb) (groups ws meta) ≡ some rank_data
      → (i a start end : ℕ) (w : LoraWeights Tensor Config)
      → get_elem? meta.segment_indices i ≡ some a
      → get_elem? meta.adapter_segments i ≡ some start
      → get_elem? meta.adapter_segments (suc i) ≡ some end
      → lookup a ws ≡ some w
      → (s : RankSegments) × (k : ℕ) × (lookup w.lora_a_r rank_data ≡ some s)
        × Reads s k start end (pa a) (pb a)
  ranks-read pa pb rank_data h i a start end w g p q e =
      let (s, f, each) = round-returns pa pb w.lora_a_r in
      let (loc, at) = adapters_of-finds ws meta.segment_indices i a w g e in
      let (k, place) = segments_of-finds ws 0 meta.segment_indices i a w g e in
      let here =
        lookup-fill_ranks (round pa pb) (groups ws meta) rank_data w.lora_a_r h
        ∙ ap (λ o. o >>= round pa pb w.lora_a_r) (has_group ws meta w.lora_a_r loc a at)
        ∙ f in
      (s, k, here, each k i a start end (place ∙ ap some (omega arith)) g p q)
