-- ===== src/Lora/Groups.antt =====
-- The segments of each rank, as the loop of `BatchLoraWeights.load` groups them.
use lorax.Prelude.{
  ℕ, ◌+◌, ◌≡◌, refl, sym, arith, Option, none, some, List, [], ◌∷◌, ◌++◌, append-nil, append_assoc,
  Option-cases, inl, inr, ◌==◌, if◌then◌else◌, lookup, put, lookup-put, ◌>>=◌,
}
use lorax.Lora.{LoraWeights, RankSegments, entries, group_ranks}
use lorax.Lora.Load.{fill_ranks}

-- No two entries have one key.
unfoldable pub IsDict : {V : Type 0} → List (ℕ × V) → Type 0
unfolding lookup
IsDict [] = Unit
IsDict ((k, v) ∷ d) = (lookup k d ≡ none) × IsDict d

pub put-IsDict : {V : Type 0} (k : ℕ) (v : V) (d : List (ℕ × V)) → IsDict d → IsDict (put k v d)
unfolding IsDict put lookup
put-IsDict k v [] h = (refl, tt)
put-IsDict k v ((j, w) ∷ d) (absent, h) = ground (arith, lookup-put k j v d, put-IsDict k v d h)

module _ {Tensor Config : Type 0} where
  -- The places, from `i` on, of the segments whose adapter has weights of the rank.
  unfoldable pub segments_of : List (ℕ × LoraWeights Tensor Config) → ℕ → ℕ → List ℕ → List ℕ
  segments_of ws rank i [] = []
  segments_of ws rank i (idx ∷ segment_indices) =
      let rest = segments_of ws rank (i + 1) segment_indices in
      elim (lookup idx ws) [ none ↦ rest | some w ↦ if w.lora_a_r == rank then i ∷ rest else rest ]

  pub entries-group_ranks :
      (ws : List (ℕ × LoraWeights Tensor Config)) (rank i : ℕ) (segment_indices : List ℕ)
      (d : List (ℕ × List ℕ))
      → entries (lookup rank (group_ranks ws i segment_indices d))
        ≡ entries (lookup rank d) ++ segments_of ws rank i segment_indices
  unfolding entries group_ranks segments_of
  entries-group_ranks ws rank i [] d = sym (append-nil (entries (lookup rank d)))
  entries-group_ranks ws rank i (idx ∷ segment_indices) d = elim (Option-cases (lookup idx ws)) [
    | inl e ↦ ground (arith, e, entries-group_ranks ws rank (i + 1) segment_indices d)
    | inr (w, e) ↦
        let v = entries (lookup w.lora_a_r d) ++ i ∷ [] in
        ground (
          arith,
          e,
          entries-group_ranks ws rank (i + 1) segment_indices (put w.lora_a_r v d),
          lookup-put w.lora_a_r rank v d,
          append_assoc (entries (lookup rank d)) (i ∷ [])
              (segments_of ws rank (i + 1) segment_indices),
        )
  ]

  pub group_ranks-IsDict :
      (ws : List (ℕ × LoraWeights Tensor Config)) (i : ℕ) (segment_indices : List ℕ)
      (d : List (ℕ × List ℕ))
      → IsDict d
      → IsDict (group_ranks ws i segment_indices d)
  unfolding group_ranks
  group_ranks-IsDict ws i [] d h = h
  group_ranks-IsDict ws i (idx ∷ segment_indices) d h = elim (Option-cases (lookup idx ws)) [
    | inl e ↦ rw (e, group_ranks) (group_ranks-IsDict ws (i + 1) segment_indices d h)
    | inr (w, e) ↦
        let v = entries (lookup w.lora_a_r d) ++ i ∷ [] in
        rw (e, group_ranks)
          (group_ranks-IsDict ws (i + 1) segment_indices (put w.lora_a_r v d)
            (put-IsDict w.lora_a_r v d h))
  ]

pub lookup-fill_ranks :
    (round : ℕ → List ℕ → Option RankSegments) (rank_indices : List (ℕ × List ℕ))
    (rank_data : List (ℕ × RankSegments)) (rank : ℕ)
    → fill_ranks round rank_indices ≡ some rank_data
    → lookup rank rank_data ≡ (lookup rank rank_indices >>= round rank)
unfolding fill_ranks lookup
lookup-fill_ranks round [] rank_data rank h = ground arith
lookup-fill_ranks round ((k, indices) ∷ rank_indices) rank_data rank h =
    elim (Option-cases (round k indices)) [
      | inl e ↦ ground (arith, e)
      | inr (s, e) ↦ elim (Option-cases (fill_ranks round rank_indices)) [
        | inl f ↦ ground (arith, e, f)
        | inr (rest, f) ↦ ground (arith, e, f, lookup-fill_ranks round rank_indices rest rank f)
      ]
    ]

pub fill_ranks-returns :
    (round : ℕ → List ℕ → Option RankSegments) (rank_indices : List (ℕ × List ℕ))
    → IsDict rank_indices
    → ((rank : ℕ) (indices : List ℕ)
        → lookup rank rank_indices ≡ some indices
        → (s : RankSegments) × (round rank indices ≡ some s))
    → (rank_data : List (ℕ × RankSegments)) × (fill_ranks round rank_indices ≡ some rank_data)
unfolding fill_ranks IsDict lookup
fill_ranks-returns round [] h each = ([], refl)
fill_ranks-returns round ((k, indices) ∷ rank_indices) (absent, h) each =
    let (s, e) = each k indices (ground arith) in
    let (rest, f) =
      fill_ranks-returns round rank_indices h
        (λ rank indices' l. each rank indices' (ground arith)) in
    ((k, s) ∷ rest, rw (e, f) refl)
