-- ===== src/Flash/Life/Filter.antt =====
-- A filtered batch is coherent.
use lorax.Prelude.{
  ℕ, zero, suc, ◌+◌, ◌-◌, ◌<◌, ◌≡◌, refl, ap, sym, subst, ◌∙◌, arith, none, some, List, [], ◌∷◌,
  map, ◌==◌, length, length-map, get_elem?, gather, gather-cons, Option-cases, Bool-cases, inl, inr,
}
use lorax.Tokens.Stopping.{StoppingCriteria}
use lorax.Tokens.Chooser.{FloatTests, Chooser, filter}
use lorax.Tokens.Chooser.Laws.{gather-map}
use lorax.Flash.{FlashCausalLmBatch}
use lorax.Flash.Filter.{lookup_all, spans, starts, last_slots, filter_requests, filter_batch}
use lorax.Flash.Concatenate.Slots.{some-inj}
use lorax.Flash.Prefill.Ends.{AllPositive}
use lorax.Flash.Generate.{Member}
use lorax.Flash.Generate.Members.{map-map}
use lorax.Flash.Generate.Coherent.{IsCoherent}

-- The rows that a gather of a column takes.
gather-rows :
    {A B : Type 0} (g : A → B) (rows : List A) (indices : List ℕ) (ys : List B)
    → gather (map g rows) indices ≡ some ys
    → (kept : List A) × (gather rows indices ≡ some kept)
unfolding gather
gather-rows g rows [] ys h = ([], refl)
gather-rows g rows (i ∷ indices) ys h =
    let (y, rest, e, e', p) = gather-cons (map g rows) i indices ys h in
    let (x, q) = get_row g rows i y e in
    let (kept, q') = gather-rows g rows indices rest e' in (x ∷ kept, ground (arith, q, q'))
  where
    get_row :
        {A B : Type 0} (g : A → B) (rows : List A) (i : ℕ) (y : B)
        → get_elem? (map g rows) i ≡ some y
        → (x : A) × (get_elem? rows i ≡ some x)
    get_row g [] i y h = ground arith
    get_row g (r ∷ rows) zero y h = (r, refl)
    get_row g (r ∷ rows) (suc i) y h = get_row g rows i y h

-- A gathered column is that column of the gathered rows.
column :
    {A B : Type 0} (g : A → B) (rows kept : List A) (indices : List ℕ) (xs ys : List B)
    → gather rows indices ≡ some kept
    → xs ≡ map g rows
    → gather xs indices ≡ some ys
    → ys ≡ map g kept
column g rows kept indices xs ys h e p = sym (
    some-inj (map g kept) ys
      (sym (gather-map g rows kept indices h) ∙ ap (λ zs. gather zs indices) (sym e) ∙ p))

AllPositive-get : (ns : List ℕ) (i n : ℕ) → AllPositive ns → get_elem? ns i ≡ some n → 0 < n
AllPositive-get [] i n h e = ground arith
AllPositive-get (m ∷ ns) zero n h e = ground (arith, h.0, e)
AllPositive-get (m ∷ ns) (suc i) n h e = AllPositive-get ns i n h.1 e

AllPositive-gather :
    (ns indices kept : List ℕ) → AllPositive ns → gather ns indices ≡ some kept → AllPositive kept
unfolding gather
AllPositive-gather ns [] kept h e = ground (arith, e)
AllPositive-gather ns (i ∷ indices) kept h e =
    let (n, rest, p, q, r) = gather-cons ns i indices kept e in
    subst AllPositive (sym r) (AllPositive-get ns i n h p, AllPositive-gather ns indices rest h q)

length-spans :
    (ns : List ℕ) (ss : List StoppingCriteria)
    → length ss ≡ length ns
    → length (spans ns ss) ≡ length ns
unfolding spans
length-spans [] ss h = refl
length-spans (n ∷ ns) [] h = absurd (omega arith)
length-spans (n ∷ ns) (s ∷ ss) h = ap suc (length-spans ns ss (omega arith))

pub length-starts_of : (total : ℕ) (ns : List ℕ) → length (starts total ns) ≡ length ns
unfolding starts
length-starts_of total [] = refl
length-starts_of total (n ∷ ns) = ap suc (length-starts_of (total + n) ns)

module _ {F Schema : Type 0} (f : FloatTests F) where
  chooser-columns :
      (indices : List ℕ) (c c' : Chooser F Schema)
      → filter f indices c ≡ some c'
      → (gather c.seeds indices ≡ some c'.seeds) × (gather c.do_sample indices ≡ some c'.do_sample)
  unfolding filter
  chooser-columns indices c c' h = ground (arith, h)

  module _ (b c : FlashCausalLmBatch F Schema) (request_ids indices : List ℕ)
      (looked_up : lookup_all b.requests_idx_mapping request_ids ≡ some indices)
      (filtered : filter_requests f b request_ids ≡ some c) where
    columns₁ :
        (gather b.requests indices ≡ some c.requests)
        × (gather b.all_input_ids indices ≡ some c.all_input_ids)
        × (gather b.input_lengths indices ≡ some c.input_lengths)
        × (gather b.prefix_offsets indices ≡ some c.prefix_offsets)
    unfolding filter_requests
    columns₁ = ground (arith, looked_up, filtered)

    columns₂ :
        (gather b.read_offsets indices ≡ some c.read_offsets)
        × (gather b.stopping_criterias indices ≡ some c.stopping_criterias)
        × (gather b.position_ids indices ≡ some c.position_ids)
        × (gather b.input_lengths_tensor indices ≡ some c.input_lengths_tensor)
    unfolding filter_requests
    columns₂ = ground (arith, looked_up, filtered)

    columns₃ :
        (filter f indices b.next_token_chooser ≡ some c.next_token_chooser)
        × (c.cu_seqlen_prefill ≡ none)
        × (c.slot_indices ≡ last_slots c.start_slots c.input_lengths)
        × (c.start_slots ≡ starts 0 (spans c.input_lengths c.stopping_criterias))
    unfolding filter_requests
    columns₃ = ground (arith, looked_up, filtered)

  lookup_all-some :
      (b c : FlashCausalLmBatch F Schema) (request_ids : List ℕ)
      → filter_requests f b request_ids ≡ some c
      → (indices : List ℕ) × (lookup_all b.requests_idx_mapping request_ids ≡ some indices)
  unfolding filter_requests
  lookup_all-some b c request_ids h =
      elim (Option-cases (lookup_all b.requests_idx_mapping request_ids)) [
        | inl e ↦ ground (arith, e, h)
        | inr (indices, e) ↦ (indices, e)
      ]

  filter_requests-IsCoherent :
      (b c : FlashCausalLmBatch F Schema) (request_ids : List ℕ) (ms : List (Member F))
      → IsCoherent b ms
      → filter_requests f b request_ids ≡ some c
      → (kept : List (Member F)) × IsCoherent c kept
  filter_requests-IsCoherent b c request_ids ms h filtered =
      let (indices, looked_up) = lookup_all-some b c request_ids filtered in
      let (requests, ids, lengths, prefixes) =
        columns₁ b c request_ids indices looked_up filtered in
      let (reads, criterias, positions, tensor) =
        columns₂ b c request_ids indices looked_up filtered in
      let (chooser, decodes, last, starts_of) =
        columns₃ b c request_ids indices looked_up filtered in
      let (seeds, samples) =
        chooser-columns indices b.next_token_chooser c.next_token_chooser chooser in
      let m = h.members in
      let (kept, rows) =
        gather-rows (λ m. m.request) ms indices c.requests
          (sym (ap (λ xs. gather xs indices) m.requests) ∙ requests) in
      let lens =
        column (λ m. m.input_length) ms kept indices b.input_lengths c.input_lengths rows m.lengths
          lengths in
      let crits =
        column (λ m. m.criteria) ms kept indices b.stopping_criterias c.stopping_criterias rows
          m.criterias criterias in
      (
        kept,
        record {
          members = record {
            requests = column _ ms kept indices b.requests c.requests rows m.requests requests;
            lengths = lens;
            prefixes =
                column _ ms kept indices b.prefix_offsets c.prefix_offsets rows m.prefixes prefixes;
            reads = column _ ms kept indices b.read_offsets c.read_offsets rows m.reads reads;
            criterias = crits;
            ids = column _ ms kept indices b.all_input_ids c.all_input_ids rows m.ids ids;
            samples =
                column _ ms kept indices b.next_token_chooser.do_sample
                  c.next_token_chooser.do_sample rows m.samples samples;
            seeds =
                column _ ms kept indices b.next_token_chooser.seeds c.next_token_chooser.seeds rows
                  m.seeds seeds;
          };
          decodes = decodes;
          positive = AllPositive-gather b.input_lengths indices c.input_lengths h.positive lengths;
          tensor =
              column (λ m. m.input_length) ms kept indices b.input_lengths_tensor
                c.input_lengths_tensor rows (h.tensor ∙ m.lengths) tensor
              ∙ sym lens;
          positions =
              column (λ m. m.input_length - 1) ms kept indices b.position_ids c.position_ids rows
                (h.positions
                  ∙ ap (map (λ n. n - 1)) m.lengths
                  ∙ map-map (λ (n : ℕ). n - 1) (λ m. m.input_length) ms)
                positions
              ∙ sym (
                  ap (map (λ n. n - 1)) lens
                  ∙ map-map (λ (n : ℕ). n - 1) (λ m. m.input_length) kept);
          last = last;
          starts =
              ap length starts_of
              ∙ length-starts_of 0 (spans c.input_lengths c.stopping_criterias)
              ∙ length-spans c.input_lengths c.stopping_criterias (
                  ap length crits
                  ∙ length-map (λ m. m.criteria) kept
                  ∙ sym (ap length lens ∙ length-map (λ m. m.input_length) kept));
        },
      )

  -- A filter of a coherent batch that succeeds returns a coherent one.
  pub filter_batch-IsCoherent :
      (b c : FlashCausalLmBatch F Schema) (request_ids : List ℕ) (ms : List (Member F))
      → IsCoherent b ms
      → filter_batch f b request_ids ≡ some c
      → (kept : List (Member F)) × IsCoherent c kept
  unfolding filter_batch
  filter_batch-IsCoherent b c [] ms h e = ground (arith, e)
  filter_batch-IsCoherent b c (i ∷ ids) ms h e =
      elim (Bool-cases (length (i ∷ ids) == length b.requests)) [
        | inl p ↦ (ms, subst (λ d. IsCoherent d ms) (some-inj b c (sym (rw p) ∙ e)) h)
        | inr p ↦ filter_requests-IsCoherent b c (i ∷ ids) ms h (sym (rw p) ∙ e)
      ]
