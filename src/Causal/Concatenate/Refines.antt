-- ===== src/Causal/Concatenate/Refines.antt =====
-- A joined batch stands for the requests of the batches, one batch after the other.
use mathlib.Core.List.{flatten}
use mathlib.Core.Option
use lorax.Prelude.{
  ℕ, ◌-◌, ◌≡◌, refl, sym, ap, ap₂, ◌∙◌, arith, some, List, [], ◌∷◌, map, length, length-map, ◌>>=◌,
}
use lorax.Prelude.Int.{pos}
use lorax.Causal.{Layer, CausalLmBatch}
use lorax.Causal.Rows.{mask_row, All}
use lorax.Causal.Padded.{IsWide, attended, attended_layer}
use lorax.Causal.Views.{View, view, join_views, join_attended}
use lorax.Causal.Concatenate.{each, mask_rows, maximum_length, maximum_padding, concatenate}
use lorax.Causal.Concatenate.Ready.{IsReady}
use lorax.Causal.Concatenate.Side.{view_of, views_of, masks_of}
use lorax.Causal.Concatenate.Layers.{join_layers-attended}
use lorax.Causal.Concatenate.Columns.{IsJoinable, all-IsReady, each_mask, columns₁, columns₂}

module _ {C K : Type 0} (k m p : ℕ) where
  views-map :
      {D : Type 0} (f : View C K → D) (g : CausalLmBatch C K → D) (bs : List (CausalLmBatch C K))
      (ready : All (IsReady k m p) bs)
      → ((b : CausalLmBatch C K) (r : IsReady k m p b) → f (view_of k m p b r) ≡ g b)
      → map f (views_of k m p bs ready) ≡ map g bs
  unfolding views_of All
  views-map f g [] ready same = refl
  views-map f g (b ∷ bs) (r, ready) same = ap₂ (◌∷◌) (same b r) (views-map f g bs ready same)

  each-view :
      (bs : List (CausalLmBatch C K)) (ready : All (IsReady k m p) bs)
      → each view bs ≡ some (views_of k m p bs ready)
  unfolding each view views_of attended All
  each-view [] ready = refl
  each-view (b ∷ bs) (r, ready) =
      let seen : attended b ≡ some (view_of k m p b r).attended =
        ap₂ (λ mask layers. Option.map (map (attended_layer mask)) layers) r.padded.mask
          r.past.past in
      rw (seen, each-view bs ready) refl

module _ {C K : Type 0} (blank : K) (k p : ℕ) (first : CausalLmBatch C K)
    (others : List (CausalLmBatch C K)) (c : CausalLmBatch C K)
    (ready : All (IsReady k (maximum_length (first ∷ others)) p) (first ∷ others))
    (padding : maximum_padding (first ∷ others) ≡ pos p)
    (joined : concatenate blank (first ∷ others) ≡ some c) where
  abbrev pub bs : List (CausalLmBatch C K)
  bs = first ∷ others

  abbrev pub m : ℕ
  m = maximum_length (first ∷ others)

  pub mask : c.attention_mask ≡ masks_of k m p bs
  unfolding concatenate masks_of
  mask =
      let masks = ap (λ z. each (mask_rows m z) bs) padding ∙ each_mask k m p bs ready in
      ground (arith, joined, masks)

  pub kept :
      (layers : List (Layer K)) × (c.past_key_values ≡ some layers)
      × All (IsWide (length (flatten (map (λ b. b.requests) bs))) (m - 1)) layers
      × (length layers ≡ k)
      × ((seen : List (Layer K))
          → length seen ≡ k
          → join_attended 0 seen (map (λ v. v.attended) (views_of k m p bs ready))
            ≡ some (map (attended_layer (masks_of k m p bs)) layers))
  unfolding All concatenate
  kept =
      let (r, rs) = ready in
      let firsts = r.layer ∷ r.layers in
      let (layers, made, wide, count, seen) =
        join_layers-attended blank k m p bs ready 0 firsts (omega (arith, r.counted)) in
      let had = r.past.past in
      (
        layers,
        ground (arith, joined, had, made),
        wide,
        count ∙ r.counted,
        λ ls h. seen ls (h ∙ sym r.counted),
      )

  attended_after : attended c ≡ some (map (attended_layer (masks_of k m p bs)) kept.0)
  unfolding attended
  attended_after = ap₂ (λ mask layers. Option.map (map (attended_layer mask)) layers) mask kept.1

  pub joins : (each view bs >>= join_views) ≡ view c
  unfolding view join_views views_of All
  joins =
      let (requested, texts, lengths, prefixes, reads, choosers, criterias, _, _) =
        columns₁ blank k p first others c ready padding joined in
      let (inputs, positions) = columns₂ blank k p first others c ready padding joined in
      let (r, rs) = ready in
      let seen = kept.4 (view_of k m p first r).attended (
        length-map
          (attended_layer (map (mask_row first.max_input_length r.own) first.input_lengths))
          (r.layer ∷ r.layers)
        ∙ r.counted) in
      ap (λ vs. vs >>= join_views) (each-view k m p bs ready)
      ∙ rw
          (
            seen,
            attended_after,
            views-map k m p (λ v. v.requests) (λ b. b.requests) others rs (λ b r. refl),
            views-map k m p (λ v. v.input_ids) (λ b. b.input_ids) others rs (λ b r. refl),
            views-map k m p (λ v. v.position_ids) (λ b. b.position_ids) others rs (λ b r. refl),
            views-map k m p (λ v. v.all_input_ids) (λ b. b.all_input_ids) others rs (λ b r. refl),
            views-map k m p (λ v. v.input_lengths) (λ b. b.input_lengths) others rs (λ b r. refl),
            views-map k m p (λ v. v.prefix_offsets) (λ b. b.prefix_offsets) others rs (λ b r. refl),
            views-map k m p (λ v. v.read_offsets) (λ b. b.read_offsets) others rs (λ b r. refl),
            views-map k m p (λ v. v.next_token_choosers) (λ b. b.next_token_choosers) others rs
                (λ b r. refl),
            views-map k m p (λ v. v.stopping_criterias) (λ b. b.stopping_criterias) others rs
                (λ b r. refl),
            requested,
            inputs,
            positions,
            texts,
            lengths,
            prefixes,
            reads,
            choosers,
            criterias,
          )
          refl

-- Let the batches be padded, have done a step, have at least one request and room each, and the
-- same number of layers. If `concatenate` succeeds on them, the joined batch stands for their
-- requests, one batch after the other: each column is that of the batches in turn, and in each
-- layer the model attends to the keys and values of each request that it attended to before, though
-- the rows of the shorter batches are padded.
pub concatenate-joins :
    {C K : Type 0} (blank : K) (k : ℕ) (first c : CausalLmBatch C K)
    (others : List (CausalLmBatch C K))
    → All (IsJoinable k) (first ∷ others)
    → concatenate blank (first ∷ others) ≡ some c
    → (each view (first ∷ others) >>= join_views) ≡ view c
concatenate-joins blank k first c others joinable joined =
    let (p, padding, ready) = all-IsReady k (first ∷ others) joinable in
    joins blank k p first others c ready padding joined
