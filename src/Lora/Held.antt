-- ===== src/Lora/Held.antt =====
-- The groups of ranks of a batch, and which rank has one.
use lorax.Prelude.{
  ℕ, ◌≡◌, sym, subst, ◌∙◌, ap, arith, some, List, [], Option-cases, inl, inr, lookup, get_elem?,
  gather,
}
use lorax.Flash.{AdapterBatchMetadata}
use lorax.Lora.{LoraWeights, entries, group_ranks}
use lorax.Lora.Groups.{segments_of, entries-group_ranks}
use lorax.Lora.Ranks.{adapters_of, gather-segments_of}

module _ {Tensor Config : Type 0} where
  pub group_of :
      (ws : List (ℕ × LoraWeights Tensor Config)) (segment_indices : List ℕ) (rank : ℕ)
      (indices : List ℕ)
      → lookup rank (group_ranks ws 0 segment_indices []) ≡ some indices
      → indices ≡ segments_of ws rank 0 segment_indices
  unfolding entries lookup
  group_of ws segment_indices rank indices h =
      sym (ap entries h) ∙ entries-group_ranks ws rank 0 segment_indices []

  module _ (ws : List (ℕ × LoraWeights Tensor Config)) (meta : AdapterBatchMetadata) where
    unfoldable pub groups : List (ℕ × List ℕ)
    groups = group_ranks ws 0 meta.segment_indices []

    -- A rank has a group where it has a segment.
    pub has_group :
        (rank loc a : ℕ)
        → get_elem? (adapters_of ws rank meta.segment_indices) loc ≡ some a
        → lookup rank groups ≡ some (segments_of ws rank 0 meta.segment_indices)
    unfolding groups entries lookup gather
    has_group rank loc a h = elim (Option-cases (lookup rank groups)) [
      | inl e ↦
          let none_left =
            sym (ap entries e) ∙ entries-group_ranks ws rank 0 meta.segment_indices [] in
          let adapters = adapters_of ws rank meta.segment_indices in
          let kept : gather meta.segment_indices [] ≡ some adapters =
            subst (λ is. gather meta.segment_indices is ≡ some adapters) (sym none_left)
              (gather-segments_of ws rank meta.segment_indices) in
          ground (arith, kept, h)
      | inr (indices, e) ↦ e ∙ ap some (group_of ws meta.segment_indices rank indices e)
    ]
