-- ===== src/Causal/Filter/Columns.antt =====
-- The columns of a filtered batch.
use lorax.Prelude.{
  ℕ, suc, ◌+◌, ◌-◌, ◌<◌, ◌≤◌, ◌≡◌, refl, sym, ap, ap₂, subst, ◌∙◌, arith, max, none, some, List, [],
  ◌∷◌, map, length, gather, Option-cases, inl, inr, lookup,
}
use lorax.Prelude.Int.{pos, ◌+ℤ◌, neg_ℤ, max_ℤ}
use lorax.Tokens.Stopping.{StoppingCriteria}
use lorax.Flash.Filter.{lookup_all, maximum}
use lorax.Flash.Texts.{slice}
use lorax.Causal.{Layer, CausalLmBatch, width_of, remaining, max_remaining}
use lorax.Causal.Rows.{mask_row, All, map-All}
use lorax.Causal.Filter.{filter_mask, filter_past, filter_requests}
use lorax.Causal.Filter.Rows.{slice-mask_row, length-mask_row}

-- The room that is left to the right: `p` is that of the batch.
pub max_remaining-pos :
    (p : ℕ) (ss : List StoppingCriteria)
    → All (λ s. s.max_new_tokens ≤ s.current_tokens + p) ss
    → (q : ℕ) × (max_remaining ss ≡ pos q)
      × (q ≤ p)
      × All (λ s. s.max_new_tokens ≤ s.current_tokens + q) ss
unfolding max_remaining All
max_remaining-pos p [] h = (0, refl, omega arith, tt)
max_remaining-pos p (s ∷ ss) (h, hs) =
    let (q, e, l, room) = max_remaining-pos p ss hs in
    let n = s.max_new_tokens - s.current_tokens in
    (
      max n q,
      ap (max_ℤ (remaining s)) e ∙ max_remaining_step s q,
      omega (arith, h, l),
      (
        omega arith,
        map-All (λ s. s.max_new_tokens ≤ s.current_tokens + q)
            (λ s. s.max_new_tokens ≤ s.current_tokens + max n q) ss (λ s r. omega (arith, r)) room,
      ),
    )
  where
    max_remaining_step :
        (s : StoppingCriteria) (q : ℕ)
        → max_ℤ (remaining s) (pos q) ≡ pos (max (s.max_new_tokens - s.current_tokens) q)
    max_remaining_step s q = ground arith

pub lookup_all-length :
    (mapping : List (ℕ × ℕ)) (ids indices : List ℕ)
    → lookup_all mapping ids ≡ some indices
    → length indices ≡ length ids
unfolding lookup_all
lookup_all-length mapping [] indices h = ground (arith, h)
lookup_all-length mapping (id ∷ ids) indices h = elim (Option-cases (lookup id mapping)) [
  | inl e ↦ absurd (ground (arith, e, h))
  | inr (i, e) ↦ elim (Option-cases (lookup_all mapping ids)) [
    | inl g ↦ absurd (ground (arith, e, g, h))
    | inr (rest, g) ↦
        let same : i ∷ rest ≡ indices = ground (arith, e, g, h) in
        ap length (sym same) ∙ ap suc (lookup_all-length mapping ids rest g)
  ]
]

gather_nil : {A : Type 0} (indices : List ℕ) (ys : List A) → gather [] indices ≡ some ys → ys ≡ []
unfolding gather
gather_nil [] ys h = ground (arith, h)
gather_nil (i ∷ indices) ys h = absurd (ground (arith, h))

-- The mask of the kept requests, where that of the batch has rows of the shape.
pub filter_mask-rows :
    (m p m' q : ℕ) (ns ns' indices : List ℕ)
    → gather ns indices ≡ some ns'
    → All (λ n. n ≤ m) ns
    → All (λ n. n ≤ m') ns'
    → m' ≤ m
    → 0 < m'
    → q ≤ p
    → filter_mask (pos p) (pos q) m' (width_of (map (mask_row m p) ns)) (map (mask_row m p) ns')
      ≡ map (mask_row m' q) ns'
unfolding filter_mask All
filter_mask-rows m p m' q [] ns' indices h all low l l' l'' =
    subst (λ ks. filter_mask (pos p) (pos q) m' 0 (map (mask_row m p) ks) ≡ map (mask_row m' q) ks)
      (sym (gather_nil indices ns' h)) refl
filter_mask-rows m p m' q (n ∷ ns) ns' indices h (first, all) low l l' l'' = rows ns' low
  where
    width : width_of (map (mask_row m p) (n ∷ ns)) ≡ m + p
    width = length-mask_row m p n first

    rows :
        (ks : List ℕ)
        → All (λ n. n ≤ m') ks
        → map
            (slice
              (neg_ℤ (pos p +ℤ pos m'))
              (pos (width_of (map (mask_row m p) (n ∷ ns))) +ℤ neg_ℤ (pos p) +ℤ pos q))
            (map (mask_row m p) ks)
          ≡ map (mask_row m' q) ks
    rows [] h = refl
    rows (k ∷ ks) (h, hs) =
        ap₂ (◌∷◌)
          (ap
              (λ w.
                slice (neg_ℤ (pos p +ℤ pos m')) (pos w +ℤ neg_ℤ (pos p) +ℤ pos q) (mask_row m p k))
              width
            ∙ slice-mask_row m p m' q k h l l' l'')
          (rows ks hs)

module _ {C K : Type 0} (b c : CausalLmBatch C K) (request_ids indices : List ℕ)
    (looked_up : lookup_all b.requests_idx_mapping request_ids ≡ some indices)
    (filtered : filter_requests b request_ids ≡ some c) where
  pub columns₁ :
      (gather b.requests indices ≡ some c.requests)
      × (gather b.input_ids indices ≡ some c.input_ids)
      × (gather b.position_ids indices ≡ some c.position_ids)
      × (gather b.all_input_ids indices ≡ some c.all_input_ids)
      × (gather b.input_lengths indices ≡ some c.input_lengths)
  unfolding filter_requests
  columns₁ = ground (arith, looked_up, filtered)

  pub columns₂ :
      (gather b.prefix_offsets indices ≡ some c.prefix_offsets)
      × (gather b.read_offsets indices ≡ some c.read_offsets)
      × (gather b.next_token_choosers indices ≡ some c.next_token_choosers)
      × (gather b.stopping_criterias indices ≡ some c.stopping_criterias)
  unfolding filter_requests
  columns₂ = ground (arith, looked_up, filtered)

  pub columns₃ :
      (c.max_input_length ≡ maximum c.input_lengths)
      × (c.padding_right_offset ≡ max_remaining c.stopping_criterias)
      × (filter_past indices (maximum c.input_lengths - 1) b.past_key_values ≡ c.past_key_values)
  unfolding filter_requests
  columns₃ = ground (arith, looked_up, filtered)

  pub columns₄ :
      (rows : List (List ℕ))
      → gather b.attention_mask indices ≡ some rows
      → c.attention_mask
        ≡ filter_mask b.padding_right_offset
            (max_remaining c.stopping_criterias)
            (maximum c.input_lengths)
            (width_of b.attention_mask)
            rows
  unfolding filter_requests
  columns₄ rows h = ground (arith, h, looked_up, filtered)

  without_past : filter_past indices (maximum c.input_lengths - 1) b.past_key_values ≡ none → ⊥
  unfolding filter_requests
  without_past e =
      let (_, _, _, _, lengths) = columns₁ in ground (arith, e, lengths, looked_up, filtered)

  pub kept_past :
      (layers : List (Layer K)) × (filter_past indices
          (maximum c.input_lengths - 1)
          b.past_key_values
        ≡ some layers)
      × (c.past_key_values ≡ some layers)
  kept_past =
      let (_, _, same) = columns₃ in
      elim (Option-cases (filter_past indices (maximum c.input_lengths - 1) b.past_key_values)) [
        | inl e ↦ absurd (without_past e)
        | inr (layers, e) ↦ (layers, e, sym same ∙ e)
      ]
