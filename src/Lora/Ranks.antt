-- ===== src/Lora/Ranks.antt =====
-- What the segments of a rank gather from the lists that have an item for each segment.
use lorax.Prelude.{
  ℕ, zero, suc, ◌≡◌, refl, arith, none, some, List, [], ◌∷◌, ◌++◌, map, append_assoc, length,
  length-append, Option-cases, Bool-cases, inl, inr, ◌==◌, if◌then◌else◌, lookup, get_elem?, gather,
  gather-cons, get_elem?-map,
}
use lorax.Lora.{LoraWeights}
use lorax.Lora.Groups.{segments_of}

pub gather-map :
    {A B : Type 0} (f : A → B) (xs : List A) (indices : List ℕ) (kept : List A)
    → gather xs indices ≡ some kept
    → gather (map f xs) indices ≡ some (map f kept)
unfolding gather
gather-map f xs [] kept h = ground arith
gather-map f xs (i ∷ indices) kept h =
    let (x, rest, e, g, k) = gather-cons xs i indices kept h in
    rw (get_elem?-map f xs i x e, gather-map f xs indices rest g, k) refl

pub get_elem?-at :
    {A : Type 0} (xs : List A) (y : A) (ys : List A) → get_elem? (xs ++ y ∷ ys) (length xs) ≡ some y
get_elem?-at [] y ys = refl
get_elem?-at (x ∷ xs) y ys = get_elem?-at xs y ys

module _ {Tensor Config : Type 0} where
  -- The adapters of the segments whose adapter has weights of the rank.
  pub adapters_of : List (ℕ × LoraWeights Tensor Config) → ℕ → List ℕ → List ℕ
  adapters_of ws rank [] = []
  adapters_of ws rank (idx ∷ segment_indices) =
      let rest = adapters_of ws rank segment_indices in
      elim (lookup idx ws) [
        | none ↦ rest
        | some w ↦ if w.lora_a_r == rank then idx ∷ rest else rest
      ]

  gather-segments_of_from :
      (ws : List (ℕ × LoraWeights Tensor Config)) (rank : ℕ) (before segment_indices : List ℕ)
      → gather (before ++ segment_indices) (segments_of ws rank (length before) segment_indices)
        ≡ some (adapters_of ws rank segment_indices)
  unfolding gather segments_of adapters_of
  gather-segments_of_from ws rank before [] = refl
  gather-segments_of_from ws rank before (idx ∷ xs) =
      let ih = gather-segments_of_from ws rank (before ++ idx ∷ []) xs in
      ground (
        arith,
        ih,
        length-append before (idx ∷ []),
        append_assoc before (idx ∷ []) xs,
        get_elem?-at before idx xs,
      )

  pub gather-segments_of :
      (ws : List (ℕ × LoraWeights Tensor Config)) (rank : ℕ) (segment_indices : List ℕ)
      → gather segment_indices (segments_of ws rank 0 segment_indices)
        ≡ some (adapters_of ws rank segment_indices)
  gather-segments_of ws rank segment_indices = gather-segments_of_from ws rank [] segment_indices

  -- Each segment of an adapter of the rank is among them.
  pub adapters_of-finds :
      (ws : List (ℕ × LoraWeights Tensor Config)) (segment_indices : List ℕ) (i a : ℕ)
      (w : LoraWeights Tensor Config)
      → get_elem? segment_indices i ≡ some a
      → lookup a ws ≡ some w
      → (k : ℕ) × (get_elem? (adapters_of ws w.lora_a_r segment_indices) k ≡ some a)
  unfolding adapters_of
  adapters_of-finds ws [] i a w h e = ground arith
  adapters_of-finds ws (idx ∷ xs) zero a w h e = (0, ground (arith, e))
  adapters_of-finds ws (idx ∷ xs) (suc i) a w h e =
      let (k, f) = adapters_of-finds ws xs i a w h e in
      elim (Option-cases (lookup idx ws)) [
        | inl g ↦ (k, ground (arith, g, f))
        | inr (v, g) ↦ elim (Bool-cases (v.lora_a_r == w.lora_a_r)) [
          | inl p ↦ (suc k, ground (arith, g, p, f))
          | inr p ↦ (k, ground (arith, g, p, f))
        ]
      ]
