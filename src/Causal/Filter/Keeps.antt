-- ===== src/Causal/Filter/Keeps.antt =====
-- A filtered batch can go on.
use lorax.Prelude.{
  ℕ, suc, ◌+◌, ◌<◌, ◌≤◌, ◌≡◌, ◌⊎◌, sym, ap, subst, ◌∙◌, arith, some, List, [], ◌∷◌, length,
  Option-cases, Bool-cases, inl, inr, ◌==◌,
}
use lorax.Tokens.Stopping.{StoppingCriteria}
use lorax.Flash.Filter.{lookup_all}
use lorax.Causal.{CausalLmBatch}
use lorax.Causal.Rows.{All, gather-All, length-gather}
use lorax.Causal.Generate.Members.{IsFull}
use lorax.Causal.Filter.{filter_requests, filter}
use lorax.Causal.Filter.Columns.{columns₁, columns₂}
use lorax.Causal.Filter.Columns.{lookup_all-length}
use lorax.Causal.Concatenate.Columns.{IsJoinable}
use lorax.Causal.Filter.Refines.{filter_requests-IsPadded}

module _ {C K : Type 0} (b c : CausalLmBatch C K) (request_ids indices : List ℕ) (full : IsFull b)
    (looked_up : lookup_all b.requests_idx_mapping request_ids ≡ some indices)
    (filtered : filter_requests b request_ids ≡ some c) where
  filtered-IsFull : IsFull c
  filtered-IsFull =
      let (requests, inputs, _, texts, lengths) =
        columns₁ b c request_ids indices looked_up filtered in
      let (prefixes, reads, choosers, criterias) =
        columns₂ b c request_ids indices looked_up filtered in
      let size = sym (length-gather b.requests indices c.requests requests) in
      record {
        lengths = length-gather b.input_lengths indices c.input_lengths lengths ∙ size;
        prefixes = length-gather b.prefix_offsets indices c.prefix_offsets prefixes ∙ size;
        reads = length-gather b.read_offsets indices c.read_offsets reads ∙ size;
        choosers =
            length-gather b.next_token_choosers indices c.next_token_choosers choosers ∙ size;
        criterias =
            length-gather b.stopping_criterias indices c.stopping_criterias criterias ∙ size;
        texts = length-gather b.all_input_ids indices c.all_input_ids texts ∙ size;
        inputs = length-gather b.input_ids indices c.input_ids inputs ∙ size;
        begun =
            gather-All (λ row. 1 ≤ length row) b.input_ids indices c.input_ids full.begun inputs;
        positive =
            gather-All (λ n. 1 ≤ n) b.input_lengths indices c.input_lengths full.positive lengths;
      }

filter_cases :
    {C K : Type 0} (b c : CausalLmBatch C K) (request_ids : List ℕ)
    → filter b request_ids ≡ some c
    → (0 < length request_ids) × ((c ≡ b) ⊎ (filter_requests b request_ids ≡ some c))
unfolding filter
filter_cases b c [] h = absurd (ground (arith, h))
filter_cases b c (id ∷ ids) h = elim (Bool-cases (length (id ∷ ids) == length b.requests)) [
  | inl same ↦ (omega arith, inl (ground (arith, same, h)))
  | inr less ↦ (omega arith, inr (ground (arith, less, h)))
]

-- Where a request has tokens left there is room.
some_room :
    (p : ℕ) (ss : List StoppingCriteria)
    → 0 < length ss
    → All (λ s. s.current_tokens < s.max_new_tokens) ss
    → All (λ s. s.max_new_tokens ≤ s.current_tokens + p) ss
    → 0 < p
unfolding All
some_room p [] h left room = absurd (omega (arith, h))
some_room p (s ∷ ss) h (l, left) (r, room) = omega (arith, l, r)

module _ {C K : Type 0} (k : ℕ) (b c : CausalLmBatch C K) (request_ids : List ℕ)
    (left : All (λ s. s.current_tokens < s.max_new_tokens) c.stopping_criterias) where
  looked_up-IsJoinable :
      (indices : List ℕ)
      → IsJoinable k b
      → 0 < length request_ids
      → lookup_all b.requests_idx_mapping request_ids ≡ some indices
      → filter_requests b request_ids ≡ some c
      → IsJoinable k c
  unfolding IsJoinable
  looked_up-IsJoinable indices (p, r) nonempty looked_up filtered =
      let (q, _, padded, layer, layers, past, same) =
        filter_requests-IsPadded b c r.own r.layer r.layers request_ids indices r.padded r.past
          nonempty looked_up filtered in
      let full = filtered-IsFull b c request_ids indices r.full looked_up filtered in
      let requests = (columns₁ b c request_ids indices looked_up filtered).0 in
      let kept : 0 < length c.requests = omega (
        arith,
        nonempty,
        length-gather b.requests indices c.requests requests,
        lookup_all-length b.requests_idx_mapping request_ids indices looked_up,
      ) in
      (
        q,
        record {
          own = q;
          layer = layer;
          layers = layers;
          padded = padded;
          full = full;
          past = past;
          counted = ap suc same ∙ r.counted;
          nonempty = kept;
          positive =
              some_room q c.stopping_criterias (omega (arith, kept, full.criterias)) left
                padded.room;
          shorter = omega arith;
          less = omega arith;
        },
      )

  -- A batch that can be joined can be joined after it is filtered, if the kept requests have tokens
  -- left.
  pub filter-IsJoinable : IsJoinable k b → filter b request_ids ≡ some c → IsJoinable k c
  unfolding filter_requests
  filter-IsJoinable joinable h =
      let (nonempty, cases) = filter_cases b c request_ids h in
      elim cases [
        | inl same ↦ subst (IsJoinable k) (sym same) joinable
        | inr filtered ↦ elim (Option-cases (lookup_all b.requests_idx_mapping request_ids)) [
          | inl missing ↦ absurd (ground (arith, missing, filtered))
          | inr (indices, looked_up) ↦
              looked_up-IsJoinable indices joinable nonempty looked_up filtered
        ]
      ]
