-- ===== src/Causal/Concatenate/Keeps.antt =====
-- A joined batch is padded.
use mathlib.Core.List.{flatten}
use lorax.Prelude.{
  ℕ, ◌+◌, ◌-◌, ◌<◌, ◌≤◌, ◌≡◌, refl, sym, ap, ap₂, subst, ◌∙◌, arith, max, some, List, [], ◌∷◌, map,
  length, length-append,
}
use lorax.Prelude.Int.{pos}
use lorax.Flash.Filter.{maximum}
use lorax.Flash.Prefill.{last_n}
use lorax.Causal.{Layer, CausalLmBatch}
use lorax.Causal.Rows.{mask_row, All, map-All}
use lorax.Causal.Flatten.{maximum-append, flatten-eq, flatten-count, flatten-All, map-flatten}
use lorax.Causal.Padded.{IsPadded, HasPast, IsWide}
use lorax.Causal.Generate.Members.{IsFull}
use lorax.Causal.Concatenate.{maximum_length, maximum_padding, concatenate}
use lorax.Causal.Concatenate.Ready.{IsReady}
use lorax.Causal.Concatenate.Side.{masks_of}
use lorax.Causal.Concatenate.Columns.{IsJoinable, all-IsReady, columns₁, columns₂}
use lorax.Causal.Concatenate.Refines.{bs, m, mask, kept}

maximum-lengths :
    {C K : Type 0} (k m p : ℕ) (bs : List (CausalLmBatch C K))
    → All (IsReady k m p) bs
    → maximum (flatten (map (λ b. b.input_lengths) bs)) ≡ maximum_length bs
unfolding All flatten maximum maximum_length
maximum-lengths k m p [] h = refl
maximum-lengths k m p (b ∷ bs) (r, rs) =
    maximum-append b.input_lengths (flatten (map (λ b. b.input_lengths) bs))
    ∙ ap₂ max (sym r.padded.longest) (maximum-lengths k m p bs rs)

module _ {C K : Type 0} (blank : K) (k p : ℕ) (first : CausalLmBatch C K)
    (others : List (CausalLmBatch C K)) (c : CausalLmBatch C K)
    (ready : All (IsReady k (maximum_length (first ∷ others)) p) (first ∷ others))
    (padding : maximum_padding (first ∷ others) ≡ pos p)
    (joined : concatenate blank (first ∷ others) ≡ some c) where
  longest : c.max_input_length ≡ maximum_length (first ∷ others)
  longest = (columns₁ blank k p first others c ready padding joined).7

  lengths : c.input_lengths ≡ flatten (map (λ b. b.input_lengths) (first ∷ others))
  lengths = (columns₁ blank k p first others c ready padding joined).2

  count :
      {D : Type 0} (column : CausalLmBatch C K → List D) (ds : List D)
      → ds ≡ flatten (map column (first ∷ others))
      → ((b : CausalLmBatch C K)
          → IsReady k (maximum_length (first ∷ others)) p b
          → length (column b) ≡ length b.requests)
      → length ds ≡ length c.requests
  count column ds h same =
      let requested = (columns₁ blank k p first others c ready padding joined).0 in
      ap length h
      ∙ flatten-count (IsReady k (maximum_length (first ∷ others)) p) column (λ b. b.requests)
          (first ∷ others) same ready
      ∙ ap length (sym requested)

  joined-IsPadded : IsPadded c p
  unfolding masks_of flatten
  joined-IsPadded =
      let (_, _, _, _, _, _, criterias, _, padded) =
        columns₁ blank k p first others c ready padding joined in
      let (_, positions) = columns₂ blank k p first others c ready padding joined in
      let P = IsReady k (maximum_length (first ∷ others)) p in
      record {
        padding = padded ∙ padding;
        longest =
            longest
            ∙ sym (maximum-lengths k (maximum_length (first ∷ others)) p (first ∷ others) ready)
            ∙ ap maximum (sym lengths);
        mask =
            mask blank k p first others c ready padding joined
            ∙ sym (
                map-flatten (mask_row (maximum_length (first ∷ others)) p) (λ b. b.input_lengths)
                  (first ∷ others))
            ∙ ap₂ (λ m ns. map (mask_row m p) ns) (sym longest) (sym lengths);
        placed =
            ap (map (last_n 1)) positions
            ∙ flatten-eq P (last_n 1) (λ n. (n - 1) ∷ []) (λ b. b.position_ids)
                (λ b. b.input_lengths) (first ∷ others) (λ b r. r.padded.placed) ready
            ∙ ap (map (λ n. (n - 1) ∷ [])) (sym lengths);
        counted = count (λ b. b.input_lengths) c.input_lengths lengths (λ b r. r.padded.counted);
        room = subst (All (λ s. s.max_new_tokens ≤ s.current_tokens + p)) (sym criterias) (
            flatten-All P (λ s. s.max_new_tokens ≤ s.current_tokens + p) (λ b. b.stopping_criterias)
              (first ∷ others)
              (λ b r.
                map-All (λ s. s.max_new_tokens ≤ s.current_tokens + r.own)
                  (λ s. s.max_new_tokens ≤ s.current_tokens + p) b.stopping_criterias
                  (λ s h. omega (arith, h, r.less)) r.padded.room)
              ready);
      }

  joined-IsFull : IsFull c
  joined-IsFull =
      let (_, texts, _, prefixes, reads, choosers, criterias, _, _) =
        columns₁ blank k p first others c ready padding joined in
      let (inputs, _) = columns₂ blank k p first others c ready padding joined in
      let P = IsReady k (maximum_length (first ∷ others)) p in
      record {
        lengths = joined-IsPadded.counted;
        prefixes = count (λ b. b.prefix_offsets) c.prefix_offsets prefixes (λ b r. r.full.prefixes);
        reads = count (λ b. b.read_offsets) c.read_offsets reads (λ b r. r.full.reads);
        choosers =
            count (λ b. b.next_token_choosers) c.next_token_choosers choosers
              (λ b r. r.full.choosers);
        criterias =
            count (λ b. b.stopping_criterias) c.stopping_criterias criterias
              (λ b r. r.full.criterias);
        texts = count (λ b. b.all_input_ids) c.all_input_ids texts (λ b r. r.full.texts);
        inputs = count (λ b. b.input_ids) c.input_ids inputs (λ b r. r.full.inputs);
        begun = subst (All (λ row. 1 ≤ length row)) (sym inputs) (
            flatten-All P (λ row. 1 ≤ length row) (λ b. b.input_ids) (first ∷ others)
              (λ b r. r.full.begun) ready);
        positive = subst (All (λ n. 1 ≤ n)) (sym lengths) (
            flatten-All P (λ n. 1 ≤ n) (λ b. b.input_lengths) (first ∷ others)
              (λ b r. r.full.positive) ready);
      }

  joined-HasPast :
      (layer : Layer K) × (layers : List (Layer K)) × HasPast c layer layers
      × (length (layer ∷ layers) ≡ k)
  unfolding All
  joined-HasPast =
      let (layers, made, wide, total, _) = kept blank k p first others c ready padding joined in
      let (r, _) = ready in split layers made wide total
    where
      some_layers : 0 < k
      some_layers = omega (arith, ready.0.counted)

      P : CausalLmBatch C K → Type 0
      P = IsReady k (maximum_length (first ∷ others)) p

      split :
          (layers : List (Layer K))
          → c.past_key_values ≡ some layers
          → All
              (IsWide
                (length (flatten (map (λ b. b.requests) (first ∷ others))))
                (maximum_length (first ∷ others) - 1))
              layers
          → length layers ≡ k
          → (layer : Layer K) × (layers : List (Layer K)) × HasPast c layer layers
            × (length (layer ∷ layers) ≡ k)
      split [] made wide total = absurd (omega (arith, total, some_layers))
      split (l ∷ ls) made wide total =
          let requested = (columns₁ blank k p first others c ready padding joined).0 in
          let (inputs, positions) = columns₂ blank k p first others c ready padding joined in
          (
            l,
            ls,
            record {
              past = made;
              wide =
                  subst (λ n. All (IsWide n (c.max_input_length - 1)) (l ∷ ls))
                    (ap length (sym requested))
                    (subst
                      (λ m.
                        All
                          (IsWide (length (flatten (map (λ b. b.requests) (first ∷ others))))
                            (m - 1))
                          (l ∷ ls))
                      (sym longest) wide);
              grown = subst (All (λ n. 2 ≤ n)) (sym lengths) (
                  flatten-All P (λ n. 2 ≤ n) (λ b. b.input_lengths) (first ∷ others)
                    (λ b r. r.past.grown) ready);
              inputs = count (λ b. b.input_ids) c.input_ids inputs (λ b r. r.past.inputs);
              input_column = subst (All (λ row. length row ≡ 1)) (sym inputs) (
                  flatten-All P (λ row. length row ≡ 1) (λ b. b.input_ids) (first ∷ others)
                    (λ b r. r.past.input_column) ready);
              position_column = subst (All (λ row. length row ≡ 1)) (sym positions) (
                  flatten-All P (λ row. length row ≡ 1) (λ b. b.position_ids) (first ∷ others)
                    (λ b r. r.past.position_column) ready);
            },
            total,
          )

-- Batches that can be joined make a batch that can be joined.
pub concatenate-IsJoinable :
    {C K : Type 0} (blank : K) (k : ℕ) (first c : CausalLmBatch C K)
    (others : List (CausalLmBatch C K))
    → All (IsJoinable k) (first ∷ others)
    → concatenate blank (first ∷ others) ≡ some c
    → IsJoinable k c
unfolding IsJoinable All flatten
concatenate-IsJoinable blank k first c others joinable joined =
    let (p, padding, ready) = all-IsReady k (first ∷ others) joinable in
    let (layer, layers, past, counted) =
      joined-HasPast blank k p first others c ready padding joined in
    let requested = (columns₁ blank k p first others c ready padding joined).0 in
    let (r, _) = ready in
    (
      p,
      record {
        own = p;
        layer = layer;
        layers = layers;
        padded = joined-IsPadded blank k p first others c ready padding joined;
        full = joined-IsFull blank k p first others c ready padding joined;
        past = past;
        counted = counted;
        nonempty = omega (
          arith,
          r.nonempty,
          ap length requested,
          length-append first.requests (flatten (map (λ b. b.requests) others)),
        );
        positive = omega (arith, r.positive, r.less);
        shorter = omega arith;
        less = omega arith;
      },
    )
