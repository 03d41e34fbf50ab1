-- ===== src/Causal/Generate/Next.antt =====
-- The batch that goes on is padded.
use lorax.Prelude.{
  ℕ, suc, ◌+◌, ◌-◌, ◌<◌, ◌≤◌, ◌≡◌, refl, sym, ap, ap₂, subst, ◌∙◌, arith, max, false, some, List,
  [], ◌∷◌, map, length, length-map, take,
}
use lorax.Prelude.Int.{pos, negsuc, ◌+ℤ◌}
use lorax.Flash.Filter.{maximum}
use lorax.Flash.Prefill.{last_n}
use lorax.Causal.{Layer, CausalLmBatch}
use lorax.Causal.Rows.{All, map-All, All-map, All-of_map, mask_row}
use lorax.Causal.Padded.{IsPadded, HasPast, IsWide}
use lorax.Causal.Generate.{
  Engine, Stepped, overwrite, set_firsts, members_of, step_member, all_stopped, maximum_stepped,
  next_batch, run_forward,
}
use lorax.Causal.Generate.Members.{
  IsFull, Counted, stepped-lengths, stepped-Counted, maximum_stepped-eq,
}
use lorax.Causal.Generate.Columns.{
  overwrite_whole, overwrite-length, maximum-grow, move_places, set_firsts-column, new_mask,
}

-- What the model answers on the batch: logits for each request, and keys and values for each token
-- that it has seen.
pub record Answers {C K L : Type 0} (e : Engine C K L) (b : CausalLmBatch C K) (logits : List L)
    (layer : Layer K) (layers : List (Layer K)) : Type 0 where
  pub ran : run_forward e b ≡ some (logits, layer ∷ layers)
  pub scored : length logits ≡ length b.requests
  pub kept : All (IsWide (length b.requests) b.max_input_length) (layer ∷ layers)

module _ {C K L : Type 0} (e : Engine C K L) (b c : CausalLmBatch C K) (q : ℕ) (logits : List L)
    (layer : Layer K) (layers : List (Layer K)) (padded : IsPadded b (suc q)) (full : IsFull b)
    (answers : Answers e b logits layer layers) (stepped : List (Stepped C))
    (goes : map (step_member e) (members_of e b logits) ≡ stepped)
    (unfinished : all_stopped e stepped ≡ false)
    (advanced : next_batch e b stepped (layer ∷ layers) ≡ some c) where
  stepped_lengths : map (λ s. s.member.input_length) stepped ≡ map suc b.input_lengths
  stepped_lengths =
      ap (map (λ s. s.member.input_length)) (sym goes)
      ∙ stepped-lengths e b logits full answers.scored

  stepped_count : length stepped ≡ length b.requests
  stepped_count =
      sym (length-map (λ s. s.member.input_length) stepped)
      ∙ ap length stepped_lengths
      ∙ length-map suc b.input_lengths
      ∙ full.lengths

  some_stepped : (ss : List (Stepped C)) → all_stopped e ss ≡ false → 0 < length ss
  unfolding all_stopped
  some_stepped [] h = absurd (ground (arith, h))
  some_stepped (s ∷ ss) h = omega arith

  room : All (Counted q) stepped
  room = subst (All (Counted q)) goes (
      subst (λ k. All (Counted k) (map (step_member e) (members_of e b logits))) (omega arith)
        (stepped-Counted e b logits full answers.scored (suc q) padded.room))

  columns₁ :
      (c.requests ≡ b.requests)
      × (c.past_key_values ≡ some (layer ∷ layers))
      × (c.input_ids ≡ map (take 1) (set_firsts (map (λ s. s.next_token_id) stepped) b.input_ids))
      × (c.attention_mask ≡ map (mask_row (suc b.max_input_length) q) (map suc b.input_lengths))
      × (c.position_ids ≡ map (λ row. map (λ p. p + 1) (last_n 1 row)) b.position_ids)
      × (c.input_lengths ≡ overwrite (map (λ s. s.member.input_length) stepped) b.input_lengths)
  unfolding next_batch
  columns₁ = ground (arith, new_mask b q padded, advanced)

  columns₂ :
      (c.prefix_offsets ≡ overwrite (map (λ s. s.member.prefix_offset) stepped) b.prefix_offsets)
      × (c.read_offsets ≡ overwrite (map (λ s. s.member.read_offset) stepped) b.read_offsets)
      × (c.next_token_choosers
          ≡ overwrite (map (λ s. s.member.chooser) stepped) b.next_token_choosers)
      × (c.stopping_criterias
          ≡ overwrite (map (λ s. s.member.criteria) stepped) b.stopping_criterias)
      × (c.all_input_ids ≡ overwrite (map (λ s. s.member.all_input_ids) stepped) b.all_input_ids)
  unfolding next_batch
  columns₂ = ground (arith, new_mask b q padded, advanced)

  columns₃ :
      (c.max_input_length ≡ maximum_stepped e b.max_input_length stepped)
      × (c.padding_right_offset ≡ b.padding_right_offset +ℤ negsuc 0)
  unfolding next_batch
  columns₃ = ground (arith, new_mask b q padded, advanced)

  pub some_requests : 0 < length b.requests
  some_requests = omega (arith, stepped_count, some_stepped stepped unfinished)

  pub size : c.requests ≡ b.requests
  size = columns₁.0

  new_lengths : c.input_lengths ≡ map suc b.input_lengths
  new_lengths =
      let (_, _, _, _, _, lengths) = columns₁ in
      lengths
      ∙ overwrite_whole (map (λ s. s.member.input_length) stepped) b.input_lengths
          (length-map (λ s. s.member.input_length) stepped ∙ stepped_count ∙ sym full.lengths)
      ∙ stepped_lengths

  new_longest : c.max_input_length ≡ suc b.max_input_length
  new_longest =
      columns₃.0
      ∙ maximum_stepped-eq e b.max_input_length stepped
      ∙ ap (λ ns. max b.max_input_length (maximum ns)) stepped_lengths
      ∙ ap (max b.max_input_length) (
          maximum-grow b.input_lengths
            (omega (arith, full.lengths, stepped_count, some_stepped stepped unfinished))
          ∙ ap suc (sym padded.longest))
      ∙ omega arith

  new_room : All (λ s. s.max_new_tokens ≤ s.current_tokens + q) c.stopping_criterias
  unfolding Counted
  new_room =
      let (_, _, _, criterias, _) = columns₂ in
      let whole =
        overwrite_whole (map (λ s. s.member.criteria) stepped) b.stopping_criterias
          (length-map (λ s. s.member.criteria) stepped ∙ stepped_count ∙ sym full.criterias) in
      subst (All (λ s. s.max_new_tokens ≤ s.current_tokens + q)) (sym (criterias ∙ whole)) (
        All-map (λ s. s.max_new_tokens ≤ s.current_tokens + q) (λ s. s.member.criteria) stepped
          (map-All (Counted q)
            (λ s. s.member.criteria.max_new_tokens ≤ s.member.criteria.current_tokens + q) stepped
            (λ s h. low s h) room))
    where
      low :
          (s : Stepped C)
          → Counted q s
          → s.member.criteria.max_new_tokens ≤ s.member.criteria.current_tokens + q
      low s (h, _) = h

  pub next-IsPadded : IsPadded c q
  next-IsPadded =
      let (_, _, _, mask, positions, _) = columns₁ in
      let offset : pos (suc q) +ℤ negsuc 0 ≡ pos q = ground arith in
      record {
        padding = columns₃.1 ∙ ap (λ z. z +ℤ negsuc 0) padded.padding ∙ offset;
        longest =
            new_longest
            ∙ ap suc padded.longest
            ∙ sym (
                maximum-grow b.input_lengths
                  (omega (arith, full.lengths, stepped_count, some_stepped stepped unfinished)))
            ∙ ap maximum (sym new_lengths);
        mask = mask ∙ ap₂ (λ m ns. map (mask_row m q) ns) (sym new_longest) (sym new_lengths);
        placed =
            ap (map (last_n 1)) positions
            ∙ move_places b.position_ids b.input_lengths padded.placed full.positive
            ∙ ap (map (λ n. (n - 1) ∷ [])) (sym new_lengths);
        counted =
            ap length new_lengths
            ∙ length-map suc b.input_lengths
            ∙ full.lengths
            ∙ ap length (sym size);
        room = new_room;
      }

  new_inputs : (length c.input_ids ≡ length b.requests) × All (λ row. length row ≡ 1) c.input_ids
  new_inputs =
      let (_, _, inputs, _, _, _) = columns₁ in
      let ids = map (λ s. s.next_token_id) stepped in
      let (count, ones) =
        set_firsts-column ids b.input_ids
          (length-map (λ s. s.next_token_id) stepped ∙ stepped_count ∙ sym full.inputs)
          full.begun in
      (
        ap length inputs ∙ count ∙ full.inputs,
        subst (All (λ row. length row ≡ 1)) (sym inputs) ones,
      )

  pub next-IsFull : IsFull c
  next-IsFull =
      let (prefixes, reads, choosers, criterias, texts) = columns₂ in
      let whole : (n : ℕ) → n ≡ length b.requests → n ≡ length c.requests =
        λ n h. h ∙ ap length (sym size) in
      let count = stepped_count in
      record {
        lengths = next-IsPadded.counted;
        prefixes = whole _ (
            ap length prefixes
            ∙ overwrite-length (λ s. s.member.prefix_offset) stepped b.prefix_offsets _ count
                full.prefixes);
        reads = whole _ (
            ap length reads
            ∙ overwrite-length (λ s. s.member.read_offset) stepped b.read_offsets _ count
                full.reads);
        choosers = whole _ (
            ap length choosers
            ∙ overwrite-length (λ s. s.member.chooser) stepped b.next_token_choosers _ count
                full.choosers);
        criterias = whole _ (
            ap length criterias
            ∙ overwrite-length (λ s. s.member.criteria) stepped b.stopping_criterias _ count
                full.criterias);
        texts = whole _ (
            ap length texts
            ∙ overwrite-length (λ s. s.member.all_input_ids) stepped b.all_input_ids _ count
                full.texts);
        inputs = whole _ new_inputs.0;
        begun =
            map-All (λ row. length row ≡ 1) (λ row. 1 ≤ length row) c.input_ids
              (λ row h. omega (arith, h)) new_inputs.1;
        positive = subst (All (λ n. 1 ≤ n)) (sym new_lengths) (
            All-map (λ n. 1 ≤ n) suc b.input_lengths
              (map-All (λ n. 1 ≤ n) (λ n. 1 ≤ suc n) b.input_lengths (λ n h. omega arith)
                full.positive));
      }

  new_positions : All (λ row. length row ≡ 1) c.position_ids
  unfolding All
  new_positions =
      let (_, _, _, _, positions, _) = columns₁ in
      subst (All (λ row. length row ≡ 1)) (sym positions) (
        All-map (λ row. length row ≡ 1) (λ row. map (λ p. p + 1) (last_n 1 row)) b.position_ids
          (map-All (λ row. length (last_n 1 row) ≡ 1)
            (λ row. length (map (λ p. p + 1) (last_n 1 row)) ≡ 1) b.position_ids
            (λ row h. length-map (λ p. p + 1) (last_n 1 row) ∙ h)
            (All-of_map (λ row. length row ≡ 1) (last_n 1) b.position_ids
              (subst (All (λ row. length row ≡ 1)) (sym padded.placed) (places b.input_lengths)))))
    where
      everywhere : (ns : List ℕ) → All (λ n. length ((n - 1) ∷ []) ≡ 1) ns
      everywhere [] = tt
      everywhere (n ∷ ns) = (refl, everywhere ns)

      places : (ns : List ℕ) → All (λ row. length row ≡ 1) (map (λ n. (n - 1) ∷ []) ns)
      places ns = All-map (λ row. length row ≡ 1) (λ n. (n - 1) ∷ []) ns (everywhere ns)

  pub next-HasPast : HasPast c layer layers
  next-HasPast = record {
    past = columns₁.1;
    wide =
        subst (λ n. All (IsWide n (c.max_input_length - 1)) (layer ∷ layers)) (ap length (sym size))
          (subst (λ m. All (IsWide (length b.requests) m) (layer ∷ layers))
            (omega (arith, new_longest)) answers.kept);
    inputs = new_inputs.0 ∙ ap length (sym size);
    input_column = new_inputs.1;
    position_column = new_positions;
    grown = subst (All (λ n. 2 ≤ n)) (sym new_lengths) (
        All-map (λ n. 2 ≤ n) suc b.input_lengths
          (map-All (λ n. 1 ≤ n) (λ n. 2 ≤ suc n) b.input_lengths (λ n h. omega (arith, h))
            full.positive));
  }
