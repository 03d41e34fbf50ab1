-- ===== src/Causal/Concatenate/Columns.antt =====
-- The columns of a joined batch.
use mathlib.Core.List.{flatten}
use lorax.Prelude.{
  ℕ, ◌-◌, ◌≤◌, ◌≡◌, refl, sym, ap, ap₂, ◌∙◌, arith, max, some, List, [], ◌∷◌, map, length,
  length-map,
}
use lorax.Prelude.Int.{pos, max_ℤ}
use lorax.Flash.Prefill.{last_n}
use lorax.Causal.{CausalLmBatch}
use lorax.Causal.Rows.{mask_row, All, map-All}
use lorax.Causal.Concatenate.{each, column, mask_rows, maximum_length, maximum_padding, concatenate}
use lorax.Causal.Concatenate.Ready.{IsReady, mask_rows-mask_row, column_whole}

-- A padded batch that has done a step, with `k` layers, at least one request and room.
unfoldable pub IsJoinable : {C K : Type 0} → ℕ → CausalLmBatch C K → Type 0
IsJoinable k b = (p : ℕ) × IsReady k b.max_input_length p b

raise :
    {C K : Type 0} (k m m' p p' : ℕ) (b : CausalLmBatch C K)
    → m ≤ m'
    → p ≤ p'
    → IsReady k m p b
    → IsReady k m' p' b
raise k m m' p p' b h l ready = record {
  own = ready.own;
  layer = ready.layer;
  layers = ready.layers;
  padded = ready.padded;
  full = ready.full;
  past = ready.past;
  counted = ready.counted;
  nonempty = ready.nonempty;
  positive = ready.positive;
  shorter = omega (arith, ready.shorter, h);
  less = omega (arith, ready.less, l);
}

pub all-IsReady :
    {C K : Type 0} (k : ℕ) (bs : List (CausalLmBatch C K))
    → All (IsJoinable k) bs
    → (p : ℕ) × (maximum_padding bs ≡ pos p) × All (IsReady k (maximum_length bs) p) bs
unfolding All IsJoinable maximum_length maximum_padding
all-IsReady k [] h = (0, refl, tt)
all-IsReady k (b ∷ bs) ((p, r), rs) =
    let (q, e, ready) = all-IsReady k bs rs in
    let m = maximum_length bs in
    (
      max r.own q,
      ap₂ max_ℤ r.padded.padding e,
      (
        record {
          own = r.own;
          layer = r.layer;
          layers = r.layers;
          padded = r.padded;
          full = r.full;
          past = r.past;
          counted = r.counted;
          nonempty = r.nonempty;
          positive = r.positive;
          shorter = omega arith;
          less = omega arith;
        },
        map-All (IsReady k m q) (IsReady k (max b.max_input_length m) (max r.own q)) bs
            (λ b' r'.
              raise k m (max b.max_input_length m) q (max r.own q) b' (omega arith) (omega arith)
                r')
            ready,
      ),
    )

module _ {C K : Type 0} (k m p : ℕ) where
  pub each_mask :
      (bs : List (CausalLmBatch C K))
      → All (IsReady k m p) bs
      → each (mask_rows m (pos p)) bs ≡ some (map (λ b. map (mask_row m p) b.input_lengths) bs)
  unfolding each All
  each_mask [] ready = refl
  each_mask (b ∷ bs) (r, ready) = rw (mask_rows-mask_row k m p b r, each_mask bs ready) refl

  pub each_input :
      (bs : List (CausalLmBatch C K))
      → All (IsReady k m p) bs
      → each (λ b. column (length b.requests) b.input_ids) bs ≡ some (map (λ b. b.input_ids) bs)
  unfolding each All
  each_input [] ready = refl
  each_input (b ∷ bs) (r, ready) =
      rw
        (
          column_whole (length b.requests) b.input_ids r.past.inputs r.past.input_column,
          each_input bs ready,
        )
        refl

  position_count :
      (b : CausalLmBatch C K) → IsReady k m p b → length b.position_ids ≡ length b.requests
  position_count b r =
      sym (length-map (last_n 1) b.position_ids)
      ∙ ap length r.padded.placed
      ∙ length-map (λ n. (n - 1) ∷ []) b.input_lengths
      ∙ r.padded.counted

  pub each_position :
      (bs : List (CausalLmBatch C K))
      → All (IsReady k m p) bs
      → each (λ b. column (length b.requests) b.position_ids) bs
        ≡ some (map (λ b. b.position_ids) bs)
  unfolding each All
  each_position [] ready = refl
  each_position (b ∷ bs) (r, ready) =
      rw
        (
          column_whole (length b.requests) b.position_ids (position_count b r)
              r.past.position_column,
          each_position bs ready,
        )
        refl

module _ {C K : Type 0} (blank : K) (k p : ℕ) (first : CausalLmBatch C K)
    (others : List (CausalLmBatch C K)) (c : CausalLmBatch C K)
    (ready : All (IsReady k (maximum_length (first ∷ others)) p) (first ∷ others))
    (padding : maximum_padding (first ∷ others) ≡ pos p)
    (joined : concatenate blank (first ∷ others) ≡ some c) where
  abbrev bs : List (CausalLmBatch C K)
  bs = first ∷ others

  pub columns₁ :
      (c.requests ≡ flatten (map (λ b. b.requests) bs))
      × (c.all_input_ids ≡ flatten (map (λ b. b.all_input_ids) bs))
      × (c.input_lengths ≡ flatten (map (λ b. b.input_lengths) bs))
      × (c.prefix_offsets ≡ flatten (map (λ b. b.prefix_offsets) bs))
      × (c.read_offsets ≡ flatten (map (λ b. b.read_offsets) bs))
      × (c.next_token_choosers ≡ flatten (map (λ b. b.next_token_choosers) bs))
      × (c.stopping_criterias ≡ flatten (map (λ b. b.stopping_criterias) bs))
      × (c.max_input_length ≡ maximum_length bs)
      × (c.padding_right_offset ≡ maximum_padding bs)
  unfolding concatenate
  columns₁ = ground (arith, joined)

  pub columns₂ :
      (c.input_ids ≡ flatten (map (λ b. b.input_ids) bs))
      × (c.position_ids ≡ flatten (map (λ b. b.position_ids) bs))
  unfolding concatenate
  columns₂ =
      let inputs = each_input k (maximum_length bs) p bs ready in
      let positions = each_position k (maximum_length bs) p bs ready in
      ground (arith, joined, inputs, positions)
