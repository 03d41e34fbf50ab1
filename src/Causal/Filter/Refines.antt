-- ===== src/Causal/Filter/Refines.antt =====
-- A filtered batch stands for the kept requests.
use mathlib.Core.Option
use lorax.Prelude.{
  ℕ, suc, ◌+◌, ◌-◌, ◌<◌, ◌≤◌, ◌≡◌, refl, sym, ap, ap₂, subst, ◌∙◌, arith, some, List, [], ◌∷◌, map,
  length, gather, ◌>>=◌,
}
use lorax.Prelude.Int.{pos}
use lorax.Tokens.Chooser.Laws.{gather-map}
use lorax.Flash.Concatenate.Slots.{some-inj}
use lorax.Flash.Filter.{lookup_all, maximum}
use lorax.Flash.Prefill.{last_n}
use lorax.Causal.{Layer, CausalLmBatch, width_of, max_remaining}
use lorax.Causal.Rows.{
  mask_row, All, gather-All, length-gather, maximum-All, maximum-least, maximum-grown,
}
use lorax.Causal.Padded.{IsPadded, HasPast, IsWide, attended, attended_layer}
use lorax.Causal.Views.{view, select_view, gather_layers}
use lorax.Causal.Filter.{filter_mask, filter_past, filter_requests}
use lorax.Causal.Filter.Layers.{filter_layers-attended}
use lorax.Causal.Filter.Columns.{
  max_remaining-pos, lookup_all-length, filter_mask-rows, columns₁, columns₂, columns₃, columns₄,
  kept_past,
}

-- A gathered column is that column of the gathered rows.
gathered_column :
    {A B D : Type 0} (f : A → D) (g : B → D) (xs : List A) (ys : List B) (indices : List ℕ)
    (xs' : List A) (ys' : List B)
    → map f xs ≡ map g ys
    → gather xs indices ≡ some xs'
    → gather ys indices ≡ some ys'
    → map f xs' ≡ map g ys'
gathered_column f g xs ys indices xs' ys' e h k = some-inj (map f xs') (map g ys') (
    sym (gather-map f xs xs' indices h)
    ∙ ap (λ zs. gather zs indices) e
    ∙ gather-map g ys ys' indices k)

module _ {C K : Type 0} (b c : CausalLmBatch C K) (p : ℕ) (layer : Layer K)
    (layers : List (Layer K)) (request_ids indices : List ℕ) (padded : IsPadded b p)
    (past : HasPast b layer layers) (nonempty : 0 < length request_ids)
    (looked_up : lookup_all b.requests_idx_mapping request_ids ≡ some indices)
    (filtered : filter_requests b request_ids ≡ some c) where
  lengths : gather b.input_lengths indices ≡ some c.input_lengths
  lengths = (columns₁ b c request_ids indices looked_up filtered).4

  low : All (λ n. n ≤ b.max_input_length) b.input_lengths
  low =
      subst (λ m. All (λ n. n ≤ m) b.input_lengths) (sym padded.longest)
        (maximum-All b.input_lengths)

  shorter : maximum c.input_lengths ≤ b.max_input_length
  shorter =
      maximum-least b.max_input_length c.input_lengths (
        gather-All (λ n. n ≤ b.max_input_length) b.input_lengths indices c.input_lengths low
          lengths)

  kept_grown : All (λ n. 2 ≤ n) c.input_lengths
  kept_grown = gather-All (λ n. 2 ≤ n) b.input_lengths indices c.input_lengths past.grown lengths

  counted : length c.input_lengths ≡ length indices
  counted = length-gather b.input_lengths indices c.input_lengths lengths

  grown : 2 ≤ maximum c.input_lengths
  grown = maximum-grown c.input_lengths kept_grown (
      omega (
        arith,
        counted,
        nonempty,
        lookup_all-length b.requests_idx_mapping request_ids indices looked_up,
      ))

  room :
      (q : ℕ) × (max_remaining c.stopping_criterias ≡ pos q)
      × (q ≤ p)
      × All (λ s. s.max_new_tokens ≤ s.current_tokens + q) c.stopping_criterias
  room = max_remaining-pos p c.stopping_criterias (
      gather-All (λ s. s.max_new_tokens ≤ s.current_tokens + p) b.stopping_criterias indices
        c.stopping_criterias padded.room (columns₂ b c request_ids indices looked_up filtered).3)

  mask : c.attention_mask ≡ map (mask_row c.max_input_length room.0) c.input_lengths
  mask =
      let (longest, padding, _) = columns₃ b c request_ids indices looked_up filtered in
      let rows = map (mask_row b.max_input_length p) c.input_lengths in
      let m' = maximum c.input_lengths in
      let kept =
        gather-map (mask_row b.max_input_length p) b.input_lengths c.input_lengths indices
          lengths in
      columns₄ b c request_ids indices looked_up filtered rows
        (subst (λ ms. gather ms indices ≡ some rows) (sym padded.mask) kept)
      ∙ ap
          (λ z.
            filter_mask z (max_remaining c.stopping_criterias) m' (width_of b.attention_mask) rows)
          padded.padding
      ∙ ap (λ z. filter_mask (pos p) z m' (width_of b.attention_mask) rows) room.1
      ∙ ap (λ ms. filter_mask (pos p) (pos room.0) m' (width_of ms) rows) padded.mask
      ∙ filter_mask-rows b.max_input_length p m' room.0 b.input_lengths c.input_lengths indices
          lengths low (maximum-All c.input_lengths) shorter (omega (arith, grown)) room.2
      ∙ ap (λ m. map (mask_row m room.0) c.input_lengths) (sym longest)

  filtered-IsPadded : IsPadded c room.0
  filtered-IsPadded =
      let (longest, padding, _) = columns₃ b c request_ids indices looked_up filtered in
      let (requests, _, positions, _, _) = columns₁ b c request_ids indices looked_up filtered in
      record {
        padding = padding ∙ room.1;
        longest = longest;
        mask = mask;
        placed =
            gathered_column (last_n 1) (λ n. (n - 1) ∷ []) b.position_ids b.input_lengths indices
              c.position_ids c.input_lengths padded.placed positions lengths;
        counted = counted ∙ sym (length-gather b.requests indices c.requests requests);
        room = room.3;
      }

  kept_layers :
      (layers' : List (Layer K)) × (c.past_key_values ≡ some layers')
      × (gather_layers indices (
            map
              (attended_layer (map (mask_row b.max_input_length p) b.input_lengths))
              (layer ∷ layers))
          ≡ some (
              map
                (attended_layer (map (mask_row (maximum c.input_lengths) room.0) c.input_lengths))
                layers'))
      × All (IsWide (length indices) (maximum c.input_lengths - 1)) layers'
      × (length layers' ≡ suc (length layers))
  unfolding filter_past
  kept_layers =
      let (layers', e, kept) = kept_past b c request_ids indices looked_up filtered in
      let e' =
        subst (λ z. filter_past indices (maximum c.input_lengths - 1) z ≡ some layers') past.past
          e in
      let (same, wide, len) =
        filter_layers-attended b.max_input_length p (maximum c.input_lengths) room.0 shorter grown
          b.input_lengths c.input_lengths indices lengths (maximum-All c.input_lengths)
          (length b.requests) (layer ∷ layers) layers' past.wide e' in
      (layers', kept, same, wide, len)

  attended_before :
      attended b
      ≡ some (
          map
            (attended_layer (map (mask_row b.max_input_length p) b.input_lengths))
            (layer ∷ layers))
  unfolding attended
  attended_before =
      ap₂ (λ mask layers. Option.map (map (attended_layer mask)) layers) padded.mask past.past

  attended_after :
      attended c
      ≡ some (
          map
            (attended_layer (map (mask_row (maximum c.input_lengths) room.0) c.input_lengths))
            kept_layers.0)
  unfolding attended
  attended_after =
      ap₂ (λ mask layers. Option.map (map (attended_layer mask)) layers)
        (mask ∙ ap (λ m. map (mask_row m room.0) c.input_lengths) filtered-IsPadded.longest)
        kept_layers.1

  filtered-HasPast :
      (layer' : Layer K) × (layers' : List (Layer K)) × HasPast c layer' layers'
      × (length layers' ≡ length layers)
  filtered-HasPast =
      let (requests, inputs, positions, _, _) =
        columns₁ b c request_ids indices looked_up filtered in
      split requests inputs positions kept_layers.0 kept_layers.1 kept_layers.3 kept_layers.4
    where
      size : length indices ≡ length c.requests
      size = sym counted ∙ filtered-IsPadded.counted

      split :
          gather b.requests indices ≡ some c.requests
          → gather b.input_ids indices ≡ some c.input_ids
          → gather b.position_ids indices ≡ some c.position_ids
          → (ls : List (Layer K)) → c.past_key_values ≡ some ls
          → All (IsWide (length indices) (maximum c.input_lengths - 1)) ls
          → length ls ≡ suc (length layers)
          → (layer' : Layer K) × (layers' : List (Layer K)) × HasPast c layer' layers'
            × (length layers' ≡ length layers)
      split requests inputs positions [] e wide len = absurd (omega (arith, len))
      split requests inputs positions (l ∷ ls) e wide len = (
        l,
        ls,
        record {
          past = e;
          wide =
              subst (λ n. All (IsWide n (c.max_input_length - 1)) (l ∷ ls)) size
                (subst (λ m. All (IsWide (length indices) (m - 1)) (l ∷ ls))
                  (sym filtered-IsPadded.longest) wide);
          grown = kept_grown;
          inputs =
              length-gather b.input_ids indices c.input_ids inputs
              ∙ sym (length-gather b.requests indices c.requests requests);
          input_column =
              gather-All (λ row. length row ≡ 1) b.input_ids indices c.input_ids past.input_column
                inputs;
          position_column =
              gather-All (λ row. length row ≡ 1) b.position_ids indices c.position_ids
                past.position_column positions;
        },
        omega (arith, len),
      )

  -- A filtered batch is padded, with no more room than before, and has a past of as many layers, if
  -- the batch is padded and has done a step, at least one request is kept, and all kept ids are
  -- those of requests.
  pub filter_requests-IsPadded :
      (q : ℕ) × (q ≤ p)
      × IsPadded c q
      × (layer' : Layer K) × (layers' : List (Layer K)) × HasPast c layer' layers'
      × (length layers' ≡ length layers)
  filter_requests-IsPadded =
      let (layer', layers', after, same) = filtered-HasPast in
      (room.0, room.2, filtered-IsPadded, layer', layers', after, same)

  -- Let a batch be padded (the mask has 1 at the tokens of each request and 0 at its padding on the
  -- left and at its room on the right) and have done a step, so that each layer has keys and values
  -- of all tokens but the last. If at least one request is kept, the ids are found at the indices,
  -- and the filter succeeds, then the filtered batch stands for the requests at the indices, in
  -- that order: it has their entry of each column, and in each layer the model attends to the keys
  -- and values of each that it attended to before, though the mask and the past are cut to a
  -- shorter padding.
  pub filter_requests-view : (view b >>= select_view indices) ≡ view c
  unfolding view select_view
  filter_requests-view =
      let (requests, inputs, positions, texts, lens) =
        columns₁ b c request_ids indices looked_up filtered in
      let (prefixes, reads, choosers, criteria) =
        columns₂ b c request_ids indices looked_up filtered in
      let (_, _, same, _, _) = kept_layers in
      rw
        (
          attended_before, attended_after, requests, inputs, positions, texts, lens, prefixes,
          reads, choosers, criteria, same,
        )
        refl
