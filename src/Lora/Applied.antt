-- ===== src/Lora/Applied.antt =====
-- The weights of its adapter are applied once to each token of a decode step.
use lorax.Prelude.{
  ℕ, ◌≡◌, refl, subst, ◌∙◌, ap, arith, Option, none, some, List, [], map, Option-cases, inl, inr,
  lookup, get_elem?, ◌>>=◌, ◌≢◌,
}
use lorax.Flash.{AdapterBatchMetadata}
use lorax.Lora.{LoraWeights, RankSegments}
use lorax.Lora.Load.{bgmv_segments, fill_ranks}
use lorax.Lora.Groups.{
  IsDict, segments_of, group_ranks-IsDict, lookup-fill_ranks, fill_ranks-returns,
}
use lorax.Lora.Decode.{IsCovered, Applies, Skips, found_location, bgmv_segments-returns}
use lorax.Lora.Held.{groups, group_of, has_group}

-- The group of the rank applies to token `t` the weights at the pointers, and the others skip it.
unfoldable pub AppliedOnce : List (ℕ × RankSegments) → ℕ → ℕ → ℕ → ℕ → Type 0
AppliedOnce rank_data rank t a_ptr b_ptr =
    (s : RankSegments) × (lookup rank rank_data ≡ some s)
    × Applies s t a_ptr b_ptr
    × ((r : ℕ) (s' : RankSegments) → lookup r rank_data ≡ some s' → rank ≢ r → Skips s' t)

unfoldable pub SkippedByAll : List (ℕ × RankSegments) → ℕ → Type 0
SkippedByAll rank_data t = (r : ℕ) (s : RankSegments) → lookup r rank_data ≡ some s → Skips s t

module _ {Tensor Config : Type 0} where
  module _ (ws : List (ℕ × LoraWeights Tensor Config)) (meta : AdapterBatchMetadata)
      (covered : IsCovered meta) where
    unfoldable pub round : (ℕ → ℕ) → (ℕ → ℕ) → ℕ → List ℕ → Option RankSegments
    round pa pb = bgmv_segments ws meta (map pa meta.segment_indices) (map pb meta.segment_indices)

    pub ranks-return :
        (pa pb : ℕ → ℕ)
        → (rank_data : List (ℕ × RankSegments)) × (fill_ranks (round pa pb) (groups ws meta)
            ≡ some rank_data)
    unfolding round groups IsDict
    ranks-return pa pb =
        fill_ranks-returns (round pa pb) (groups ws meta)
          (group_ranks-IsDict ws 0 meta.segment_indices [] tt)
          (λ rank indices h.
            let (s, e, _) = bgmv_segments-returns ws meta covered pa pb rank in
            (s, ap (round pa pb rank) (group_of ws meta.segment_indices rank indices h) ∙ e))

    -- The data of a rank, where it has some, is what the round of its segments returns.
    data_of :
        (pa pb : ℕ → ℕ) (rank_data : List (ℕ × RankSegments)) (rank : ℕ) (s : RankSegments)
        → fill_ranks (round pa pb) (groups ws meta) ≡ some rank_data
        → lookup rank rank_data ≡ some s
        → round pa pb rank (segments_of ws rank 0 meta.segment_indices) ≡ some s
    unfolding groups
    data_of pa pb rank_data rank s h e =
        let f = lookup-fill_ranks (round pa pb) (groups ws meta) rank_data rank h in
        elim (Option-cases (lookup rank (groups ws meta))) [
          | inl g ↦ ground (arith, e, f, g)
          | inr (indices, g) ↦
              let same = group_of ws meta.segment_indices rank indices g in
              subst (λ is. round pa pb rank is ≡ some s) same (ground (arith, e, f, g))
        ]

    pub ranks-apply :
        (pa pb : ℕ → ℕ) (rank_data : List (ℕ × RankSegments))
        → fill_ranks (round pa pb) (groups ws meta) ≡ some rank_data
        → (t a : ℕ) → get_elem? meta.adapter_indices t ≡ some a
        → (lookup a ws ≡ none → SkippedByAll rank_data t)
          × ((w : LoraWeights Tensor Config)
              → lookup a ws ≡ some w
              → AppliedOnce rank_data w.lora_a_r t (pa a) (pb a))
    unfolding round SkippedByAll AppliedOnce
    ranks-apply pa pb rank_data h t a g = (
      λ e r s l.
          let (s', f, each) = bgmv_segments-returns ws meta covered pa pb r in
          let same : s' ≡ s = ground (arith, f, data_of pa pb rank_data r s h l) in
          subst (λ s. Skips s t) same ((each t a g).0 (λ w e'. ground (arith, e, e'))),
      λ w e.
          let (s, f, each) = bgmv_segments-returns ws meta covered pa pb w.lora_a_r in
          let (loc, _, at) = found_location ws meta covered t a w g e in
          let here =
            lookup-fill_ranks (round pa pb) (groups ws meta) rank_data w.lora_a_r h
            ∙ ap (λ o. o >>= round pa pb w.lora_a_r) (has_group ws meta w.lora_a_r loc a at)
            ∙ f in
          (
            s,
            here,
            (each t a g).1 w e refl,
            λ r s' l other.
                let (s'', f', each') = bgmv_segments-returns ws meta covered pa pb r in
                let same : s'' ≡ s' = ground (arith, f', data_of pa pb rank_data r s' h l) in
                subst (λ s. Skips s t) same
                  ((each' t a g).0 (λ v e'. ground (arith, e, e', other))),
          ),
    )
