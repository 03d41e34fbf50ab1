-- ===== src/Lora/Decode.antt =====
-- The batch of a decode step: what the BGMV kernels read for each token.
use lorax.Prelude.Int.{ℤ, pos, negsuc}
use lorax.Prelude.{
  ℕ, zero, suc, ◌≡◌, refl, subst, ◌∙◌, arith, none, some, List, [], ◌∷◌, map, Option-cases,
  Bool-cases, inl, inr, ◌==◌, lookup, get_elem?, get_elem?-map, ◌≢◌,
}
use lorax.Flash.{AdapterBatchMetadata}
use lorax.Lora.{LoraWeights, RankSegments}
use lorax.Lora.Load.{locations, batch_index, batch_indices, bgmv_segments}
use lorax.Lora.Groups.{segments_of}
use lorax.Lora.Locations.{first_of, or_else, lookup-locations, get_elem?-first_of, first_of-finds}
use lorax.Lora.Ranks.{adapters_of, gather-map, gather-segments_of, adapters_of-finds}

-- The adapter of each token has a segment.
unfoldable pub IsCovered : AdapterBatchMetadata → Type 0
IsCovered meta =
    (t a : ℕ)
    → get_elem? meta.adapter_indices t ≡ some a
    → (i : ℕ) × (get_elem? meta.segment_indices i ≡ some a)

-- The kernels apply to token `t` the weights at these two pointers.
unfoldable pub Applies : RankSegments → ℕ → ℕ → ℕ → Type 0
Applies s t a_ptr b_ptr =
    (is : List ℤ) × (loc : ℕ) × (s.indices ≡ some is)
    × (get_elem? is t ≡ some (pos loc))
    × (get_elem? s.lora_a_ptr loc ≡ some a_ptr)
    × (get_elem? s.lora_b_ptr loc ≡ some b_ptr)

-- The kernels leave token `t` as it is.
unfoldable pub Skips : RankSegments → ℕ → Type 0
Skips s t = (is : List ℤ) × (s.indices ≡ some is) × (get_elem? is t ≡ some (negsuc 0))

module _ {Tensor Config : Type 0} where
  batch_index-returns :
      (ws : List (ℕ × LoraWeights Tensor Config)) (idx_locs : List (ℕ × ℕ)) (rank a : ℕ)
      → ((w : LoraWeights Tensor Config)
          → lookup a ws ≡ some w
          → w.lora_a_r ≡ rank
          → (loc : ℕ) × (lookup a idx_locs ≡ some loc))
      → (i : ℤ) × (batch_index ws idx_locs rank a ≡ some i)
  unfolding batch_index
  batch_index-returns ws idx_locs rank a found = elim (Option-cases (lookup a ws)) [
    | inl e ↦ (negsuc 0, ground (arith, e))
    | inr (w, e) ↦ elim (Bool-cases (w.lora_a_r == rank)) [
      | inl p ↦ let (loc, f) = found w e (ground arith) in (pos loc, ground (arith, e, p, f))
      | inr p ↦ (negsuc 0, ground (arith, e, p))
    ]
  ]

  batch_indices-returns :
      (ws : List (ℕ × LoraWeights Tensor Config)) (idx_locs : List (ℕ × ℕ)) (rank : ℕ)
      (adapter_indices : List ℕ)
      → ((t a : ℕ) (w : LoraWeights Tensor Config)
          → get_elem? adapter_indices t ≡ some a
          → lookup a ws ≡ some w
          → w.lora_a_r ≡ rank
          → (loc : ℕ) × (lookup a idx_locs ≡ some loc))
      → (is : List ℤ) × (batch_indices ws idx_locs rank adapter_indices ≡ some is)
        × ((t a : ℕ)
            → get_elem? adapter_indices t ≡ some a
            → get_elem? is t ≡ batch_index ws idx_locs rank a)
  unfolding batch_indices
  batch_indices-returns ws idx_locs rank [] found = ([], refl, λ t a h. ground arith)
  batch_indices-returns ws idx_locs rank (a ∷ adapter_indices) found =
      let (i, e) = batch_index-returns ws idx_locs rank a (λ w. found 0 a w refl) in
      let (is, f, each) =
        batch_indices-returns ws idx_locs rank adapter_indices (λ t b w. found (suc t) b w) in
      (i ∷ is, rw (e, f) refl, shift i is e each)
    where
      shift :
          (i : ℤ) (is : List ℤ)
          → batch_index ws idx_locs rank a ≡ some i
          → ((t b : ℕ)
              → get_elem? adapter_indices t ≡ some b
              → get_elem? is t ≡ batch_index ws idx_locs rank b)
          → (t b : ℕ) → get_elem? (a ∷ adapter_indices) t ≡ some b
          → get_elem? (i ∷ is) t ≡ batch_index ws idx_locs rank b
      shift i is e each zero b h = ground (arith, e, h)
      shift i is e each (suc t) b h = each t b h

  batch_index-skips :
      (ws : List (ℕ × LoraWeights Tensor Config)) (idx_locs : List (ℕ × ℕ)) (rank a : ℕ)
      → ((w : LoraWeights Tensor Config) → lookup a ws ≡ some w → w.lora_a_r ≢ rank)
      → batch_index ws idx_locs rank a ≡ some (negsuc 0)
  unfolding batch_index
  batch_index-skips ws idx_locs rank a other = elim (Option-cases (lookup a ws)) [
    | inl e ↦ ground (arith, e)
    | inr (w, e) ↦ ground (arith, e, other w e)
  ]

  batch_index-applies :
      (ws : List (ℕ × LoraWeights Tensor Config)) (idx_locs : List (ℕ × ℕ)) (a loc : ℕ)
      (w : LoraWeights Tensor Config)
      → lookup a ws ≡ some w
      → lookup a idx_locs ≡ some loc
      → batch_index ws idx_locs w.lora_a_r a ≡ some (pos loc)
  unfolding batch_index
  batch_index-applies ws idx_locs a loc w e f = ground (arith, e, f)

  module _ (ws : List (ℕ × LoraWeights Tensor Config)) (meta : AdapterBatchMetadata)
      (covered : IsCovered meta) where
    -- The dict of the first places has each adapter of the rank.
    found_locations :
        (rank : ℕ)
        → (idx_locs : List (ℕ × ℕ)) × (locations meta.segment_indices 0
              (segments_of ws rank 0 meta.segment_indices)
              []
            ≡ some idx_locs)
          × ((a : ℕ) → lookup a idx_locs ≡ first_of a 0 (adapters_of ws rank meta.segment_indices))
    unfolding lookup or_else
    found_locations rank =
        lookup-locations meta.segment_indices 0 (segments_of ws rank 0 meta.segment_indices)
          (adapters_of ws rank meta.segment_indices) []
          (gather-segments_of ws rank meta.segment_indices)

    pub found_location :
        (t a : ℕ) (w : LoraWeights Tensor Config)
        → get_elem? meta.adapter_indices t ≡ some a
        → lookup a ws ≡ some w
        → (loc : ℕ) × (first_of a 0 (adapters_of ws w.lora_a_r meta.segment_indices) ≡ some loc)
          × (get_elem? (adapters_of ws w.lora_a_r meta.segment_indices) loc ≡ some a)
    unfolding IsCovered
    found_location t a w h e =
        let (i, g) = covered t a h in
        let (k, f) = adapters_of-finds ws meta.segment_indices i a w g e in
        let (loc, l) = first_of-finds a 0 k (adapters_of ws w.lora_a_r meta.segment_indices) f in
        (loc, l, get_elem?-first_of a loc (adapters_of ws w.lora_a_r meta.segment_indices) l)

    -- What a round makes of a rank, given its row of `batch_indices`.
    round_of : (ℕ → ℕ) → (ℕ → ℕ) → ℕ → List ℤ → RankSegments
    round_of pa pb rank is = record {
      rank = rank;
      lora_a_ptr = map pa (adapters_of ws rank meta.segment_indices);
      lora_b_ptr = map pb (adapters_of ws rank meta.segment_indices);
      segment_starts = none;
      segment_ends = none;
      indices = some is;
    }

    round_indices :
        (rank : ℕ)
        → (idx_locs : List (ℕ × ℕ)) × (is : List ℤ) × (locations meta.segment_indices 0
              (segments_of ws rank 0 meta.segment_indices)
              []
            ≡ some idx_locs)
          × (batch_indices ws idx_locs rank meta.adapter_indices ≡ some is)
          × ((a : ℕ) → lookup a idx_locs ≡ first_of a 0 (adapters_of ws rank meta.segment_indices))
          × ((t a : ℕ)
              → get_elem? meta.adapter_indices t ≡ some a
              → get_elem? is t ≡ batch_index ws idx_locs rank a)
    round_indices rank =
        let (idx_locs, l, places) = found_locations rank in
        let (is, f, each) =
          batch_indices-returns ws idx_locs rank meta.adapter_indices (λ t a w h e r.
            let (loc, p, _) = found_location t a w h e in
            (
              loc,
              places a
                  ∙ subst (λ r. first_of a 0 (adapters_of ws r meta.segment_indices) ≡ some loc) r
                      p,
            )) in
        (idx_locs, is, l, f, places, each)

    bgmv_segments-round_of :
        (pa pb : ℕ → ℕ) (rank : ℕ) (idx_locs : List (ℕ × ℕ)) (is : List ℤ)
        → locations meta.segment_indices 0 (segments_of ws rank 0 meta.segment_indices) []
          ≡ some idx_locs
        → batch_indices ws idx_locs rank meta.adapter_indices ≡ some is
        → bgmv_segments ws meta
            (map pa meta.segment_indices)
            (map pb meta.segment_indices)
            rank
            (segments_of ws rank 0 meta.segment_indices)
          ≡ some (round_of pa pb rank is)
    unfolding bgmv_segments round_of
    bgmv_segments-round_of pa pb rank idx_locs is l f =
        let kept = gather-segments_of ws rank meta.segment_indices in
        let segments = segments_of ws rank 0 meta.segment_indices in
        let adapters = adapters_of ws rank meta.segment_indices in
        let a = gather-map pa meta.segment_indices segments adapters kept in
        let b = gather-map pb meta.segment_indices segments adapters kept in rw (l, f, a, b) refl

    -- Of the rank of its adapter a token is given the pointers, of any other it is skipped.
    pub bgmv_segments-returns :
        (pa pb : ℕ → ℕ) (rank : ℕ)
        → (s : RankSegments) × (bgmv_segments ws meta
              (map pa meta.segment_indices)
              (map pb meta.segment_indices)
              rank
              (segments_of ws rank 0 meta.segment_indices)
            ≡ some s)
          × ((t a : ℕ)
              → get_elem? meta.adapter_indices t ≡ some a
              → (((w : LoraWeights Tensor Config) → lookup a ws ≡ some w → w.lora_a_r ≢ rank)
                  → Skips s t)
                × ((w : LoraWeights Tensor Config)
                    → lookup a ws ≡ some w
                    → w.lora_a_r ≡ rank
                    → Applies s t (pa a) (pb a)))
    unfolding Applies Skips round_of
    bgmv_segments-returns pa pb rank =
        let (idx_locs, is, l, f, places, each) = round_indices rank in
        (
          round_of pa pb rank is,
          bgmv_segments-round_of pa pb rank idx_locs is l f,
          λ t a h. (
            λ other. (is, refl, each t a h ∙ batch_index-skips ws idx_locs rank a other),
            λ w e r.
                let (loc, p, q) = found_location t a w h e in
                let q' =
                  subst (λ r. get_elem? (adapters_of ws r meta.segment_indices) loc ≡ some a) r q in
                let p' =
                  subst (λ r. first_of a 0 (adapters_of ws r meta.segment_indices) ≡ some loc) r
                    p in
                let i =
                  subst (λ r. batch_index ws idx_locs r a ≡ some (pos loc)) r
                    (batch_index-applies ws idx_locs a loc w e (places a ∙ p')) in
                (
                  is,
                  loc,
                  refl,
                  each t a h ∙ i,
                  get_elem?-map pa _ loc a q',
                  get_elem?-map pb _ loc a q',
                ),
          ),
        )
