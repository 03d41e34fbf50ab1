-- ===== src/Flash/Concatenate/Segments.antt =====
-- The adapter segments of batches that are joined.
use mathlib.Core.Option
use lorax.Prelude.{
  ℕ, ◌≡◌, refl, ap, ap₂, sym, ◌∙◌, arith, none, some, List, [], ◌∷◌, ◌++◌, map, ◌>>=◌, inl, inr,
  ◌⊎◌,
}
use lorax.Segments.{find_segments, concat_all, build, empty_builder}
use lorax.Segments.Concat.{segments_of, tokens, build-concat_all}
use lorax.Tokens.Chooser.{FloatTests}
use lorax.Flash.{FlashCausalLmBatch}
use lorax.Flash.Concatenate.Slots.{some≢none, some-inj}
use lorax.Flash.Concatenate.{extend, concatenate, tensors_of, assemble, Tensors}

module _ {F Schema : Type 0} where
  abbrev pub meta_pair : FlashCausalLmBatch F Schema → List ℕ × List ℕ
  meta_pair b = (b.adapter_meta.adapter_segments, b.adapter_meta.segment_indices)

  -- A batch whose adapter indices are `x ∷ xs`, with the segments that `find_segments` gives them.
  abbrev pub HasSegments : FlashCausalLmBatch F Schema → ℕ × List ℕ → Type 0
  HasSegments b (x, xs) =
      (b.adapter_meta.adapter_indices ≡ x ∷ xs) × (meta_pair b ≡ find_segments (x ∷ xs))

  abbrev pub AllSegments : List (FlashCausalLmBatch F Schema) → List (ℕ × List ℕ) → Type 0
  AllSegments [] [] = Unit
  AllSegments [] (p ∷ ps) = ⊥
  AllSegments (b ∷ bs) [] = ⊥
  AllSegments (b ∷ bs) (p ∷ ps) = HasSegments b p × AllSegments bs ps

  pairs-segments_of :
      (bs : List (FlashCausalLmBatch F Schema)) (ps : List (ℕ × List ℕ))
      → AllSegments bs ps
      → map meta_pair bs ≡ segments_of ps
  pairs-segments_of [] [] h = refl
  pairs-segments_of [] (p ∷ ps) h = absurd h
  pairs-segments_of (b ∷ bs) [] h = absurd h
  pairs-segments_of (b ∷ bs) ((x, xs) ∷ ps) h = ap₂ ◌∷◌ h.0.1 (pairs-segments_of bs ps h.1)

  extend-tokens :
      (bs : List (FlashCausalLmBatch F Schema)) (ps : List (ℕ × List ℕ))
      → AllSegments bs ps
      → extend (λ b. b.adapter_meta.adapter_indices) bs ≡ tokens ps
  unfolding extend
  extend-tokens [] [] h = refl
  extend-tokens [] (p ∷ ps) h = absurd h
  extend-tokens (b ∷ bs) [] h = absurd h
  extend-tokens (b ∷ bs) ((x, xs) ∷ ps) h =
      ap₂ (λ (ys zs : List ℕ). ys ++ zs) h.0.0 (extend-tokens bs ps h.1)

  tensors_of-built :
      (first : FlashCausalLmBatch F Schema) (bs : List (FlashCausalLmBatch F Schema))
      (s : List ℕ × List ℕ)
      → (concat_all empty_builder (map meta_pair bs) >>= build) ≡ some s
      → (tensors_of first bs ≡ none)
        ⊎ ((t : Tensors) × (tensors_of first bs ≡ some t)
            × ((t.adapter_segments, t.segment_indices) ≡ s))
  unfolding tensors_of
  tensors_of-built first bs s h = ground (arith, h)

  concatenate-assemble :
      (f : FloatTests F) (first : FlashCausalLmBatch F Schema)
      (others : List (FlashCausalLmBatch F Schema)) (c : FlashCausalLmBatch F Schema)
      (s : List ℕ × List ℕ)
      → (concat_all empty_builder (map meta_pair (first ∷ others)) >>= build) ≡ some s
      → concatenate f (first ∷ others) ≡ some c
      → (c.adapter_meta.adapter_indices
          ≡ extend (λ b. b.adapter_meta.adapter_indices) (first ∷ others))
        × ((c.adapter_meta.adapter_segments, c.adapter_meta.segment_indices) ≡ s)
  unfolding concatenate assemble
  concatenate-assemble f first others c s built h =
      elim (tensors_of-built first (first ∷ others) s built) [
        | inl e ↦ absurd (some≢none c (sym h ∙ ap (Option.map (assemble f first others)) e))
        | inr (t, e, p) ↦
            let q : c ≡ assemble f first others t =
              some-inj c _ (sym h ∙ ap (Option.map (assemble f first others)) e) in
            (ap (λ b. b.adapter_meta.adapter_indices) q, ap meta_pair q ∙ p)
      ]

  -- If each batch has adapter indices, with the segments that `find_segments` gives them, and
  -- `concatenate` succeeds, then the joined batch has the adapter indices of all in turn, with the
  -- segments that `find_segments` would give them.
  pub concatenate-segments :
      (f : FloatTests F) (first : FlashCausalLmBatch F Schema)
      (others : List (FlashCausalLmBatch F Schema)) (x : ℕ) (xs : List ℕ) (ps : List (ℕ × List ℕ))
      (c : FlashCausalLmBatch F Schema)
      → AllSegments (first ∷ others) ((x, xs) ∷ ps)
      → concatenate f (first ∷ others) ≡ some c
      → (c.adapter_meta.adapter_indices
          ≡ extend (λ b. b.adapter_meta.adapter_indices) (first ∷ others))
        × ((c.adapter_meta.adapter_segments, c.adapter_meta.segment_indices)
            ≡ find_segments c.adapter_meta.adapter_indices)
  concatenate-segments f first others x xs ps c all h =
      let built =
        ap (λ ss. concat_all empty_builder ss >>= build)
          (pairs-segments_of (first ∷ others) ((x, xs) ∷ ps) all)
        ∙ build-concat_all x xs ps in
      let (indices, segments) =
        concatenate-assemble f first others c (find_segments (x ∷ xs ++ tokens ps)) built h in
      (
        indices,
        segments
            ∙ ap find_segments (sym (indices ∙ extend-tokens (first ∷ others) ((x, xs) ∷ ps) all)),
      )
