-- ===== src/Tests/PaddedSteps.antt =====
-- A padded batch is made, stepped until it ends, and filtered.
use lorax.Prelude.{
  ℕ, ◌<◌, ◌≤◌, ◌≡◌, ◌⊎◌, refl, sym, ap, subst, ◌∙◌, arith, false, none, some, List, [], ◌∷◌, map,
  length, length-map, gather, lookup, put, add, contains, ◌>>=◌,
}
use lorax.Tokens.Stopping.{
  Text, one_id, from_pb as criteria_of, new as new_criteria, eos_ids, call, any_stop,
}
use lorax.Segments.{find_segments, scan, scan_step, close}
use lorax.Flash.Filter.{lookup_all, renumber, maximum, sum}
use lorax.Flash.Generate.{set_at, Generation}
use lorax.Flash.Prefill.{last_n}
use lorax.Flash.Texts.{decode_token}
use lorax.Causal.{Layer, CausalLmBatch, total_remaining, max_remaining, set_of_adapters}
use lorax.Causal.Rows.{mask_row, All, maximum-All}
use lorax.Causal.Padded.{IsPadded}
use lorax.Causal.Views.{view, select_view}
use lorax.Causal.Filter.{
  filter_requests, filter, filter_past, filter_mask, filter_layers, filter_layer,
}
use lorax.Causal.Filter.Rows.{length-mask_row}
use lorax.Causal.Filter.Refines.{filter_requests-view}
use lorax.Causal.Concatenate.{each, write_row}
use lorax.Causal.Concatenate.Columns.{IsJoinable}
use lorax.Causal.Generate.{
  generate_token, run_forward, members_of, step_member, all_stopped, generations_of, next_batch,
  zip, overwrite, set_first, set_firsts, set_one, maximum_stepped,
}
use lorax.Causal.Generate.Rows.{seen_mask}
use lorax.Causal.Generate.Members.{IsFull}
use lorax.Causal.Generate.Next.{Answers}
use lorax.Causal.Generate.Keeps.{AllStop, GoesOn, generate_token-IsPadded}
use lorax.Causal.Generate.Ends.{Serves, Ends, generate_token-Ends}
use lorax.Causal.Prefill.{PbRequest, Tokenizer, from_pb, positions, max_new_tokens_of, largest}
use lorax.Causal.Prefill.Keeps.{PadsLeft}
use lorax.Causal.Life.{Live, idle, prefilled, filtered, Live-IsJoinable}
use lorax.Tests.PaddedBatches.{
  masking, request, fresh, running, fresh-IsPadded, fresh-IsFull, running-IsPadded, seen,
  running-HasPast, kept,
}

masking-Answers :
    (b : CausalLmBatch ℕ ℕ) (p : ℕ)
    → IsPadded b p
    → IsFull b
    → 0 < p
    → (logits : List ℕ) × (layer : Layer ℕ) × (layers : List (Layer ℕ)) × Answers masking b logits
        layer layers
unfolding run_forward All
masking-Answers b p padded full h =
    let mask = map (mask_row b.max_input_length 0) b.input_lengths in
    let layer : Layer ℕ = record { keys = mask; values = mask } in
    let count = length-map (mask_row b.max_input_length 0) b.input_lengths ∙ full.lengths in
    let low =
      subst (λ m. All (λ n. n ≤ m) b.input_lengths) (sym padded.longest)
        (maximum-All b.input_lengths) in
    (
      map (λ row. 0) mask,
      layer,
      [],
      record {
        ran =
            ap (λ rows. some (map (λ row. 0) rows, record { keys = rows; values = rows } ∷ []))
              (seen_mask b p padded h);
        scored = length-map (λ row. 0) mask ∙ count;
        kept = (
          record {
            key_rows = count;
            value_rows = count;
            key_width = wide b.max_input_length b.input_lengths low;
            value_width = wide b.max_input_length b.input_lengths low;
          },
          tt,
        );
      },
    )
  where
    wide :
        (m : ℕ) (ns : List ℕ)
        → All (λ n. n ≤ m) ns
        → All (λ row. length row ≡ m) (map (mask_row m 0) ns)
    wide m [] h = tt
    wide m (n ∷ ns) (h, hs) = (length-mask_row m 0 n h ∙ omega arith, wide m ns hs)

masking-Serves : Serves masking
unfolding Serves
masking-Serves = masking-Answers

generate_token-Ends_example : (n : ℕ) × (n ≤ 3) × Ends masking fresh n
generate_token-Ends_example =
    generate_token-Ends masking fresh 3 masking-Serves fresh-IsPadded fresh-IsFull (omega arith)

fresh-Answers : Answers masking fresh (0 ∷ 0 ∷ []) seen []
unfolding run_forward All
fresh-Answers = record {
  ran = refl;
  scored = refl;
  kept = (
    record {
      key_rows = refl;
      value_rows = refl;
      key_width = (refl, (refl, tt));
      value_width = (refl, (refl, tt));
    },
    tt,
  );
}

generate_token-IsPadded_example :
    (generations : List Generation) × (((generate_token masking fresh ≡ some (generations, none))
        × AllStop masking fresh (0 ∷ 0 ∷ []))
      ⊎ ((AllStop masking fresh (0 ∷ 0 ∷ []) → ⊥) × GoesOn masking fresh 3 seen [] generations))
generate_token-IsPadded_example =
    generate_token-IsPadded masking fresh 3 (0 ∷ 0 ∷ []) seen [] fresh-IsPadded fresh-IsFull
      fresh-Answers

running_filtered : filter_requests running (5 ∷ []) ≡ some kept
unfolding filter_requests filter_mask filter_past filter_layers filter_layer lookup_all renumber
    maximum total_remaining max_remaining set_of_adapters gather find_segments scan scan_step close
    lookup put add
running_filtered = refl

running_looked_up : lookup_all running.requests_idx_mapping (5 ∷ []) ≡ some (1 ∷ [])
unfolding lookup_all lookup
running_looked_up = refl

filter_requests-view_example : (view running >>= select_view (1 ∷ [])) ≡ view kept
filter_requests-view_example =
    filter_requests-view running kept 2 seen [] (5 ∷ []) (1 ∷ []) running-IsPadded running-HasPast
      (omega arith) running_looked_up running_filtered

abbrev pb : ℕ → ℕ → Text → PbRequest ℕ
pb id limit inputs = record {
  request = request id;
  inputs = inputs;
  truncate = 8;
  parameters = 0;
  stopping_parameters = record {
    stop_sequences = [];
    max_new_tokens = limit;
    ignore_eos_token = false;
  };
}

abbrev padding_tokenizer : Tokenizer ℕ ℕ
padding_tokenizer = record {
  tokenize =
      λ inputs limit. some ((1 ∷ 3 ∷ []) ∷ (0 ∷ 7 ∷ []) ∷ [], (1 ∷ 1 ∷ []) ∷ (0 ∷ 1 ∷ []) ∷ []);
  eos_token_id = one_id 2;
  chooser_of = λ p. some p;
}

fresh_made : from_pb ℕ padding_tokenizer 0 (pb 4 3 (1 ∷ 3 ∷ []) ∷ pb 5 2 (7 ∷ []) ∷ []) ≡ some fresh
unfolding from_pb positions max_new_tokens_of largest each write_row renumber set_of_adapters
    maximum sum find_segments scan scan_step close put add new_criteria criteria_of eos_ids
fresh_made = refl

fresh_PadsLeft :
    PadsLeft
      ((1 ∷ 3 ∷ []) ∷ (7 ∷ []) ∷ [])
      ((1 ∷ 3 ∷ []) ∷ (0 ∷ 7 ∷ []) ∷ [])
      ((1 ∷ 1 ∷ []) ∷ (0 ∷ 1 ∷ []) ∷ [])
      (2 ∷ 1 ∷ [])
unfolding All mask_row maximum
fresh_PadsLeft = record {
  rows = refl;
  tokens = refl;
  masked = refl;
  begun = (omega arith, (omega arith, tt));
  positive = (omega arith, (omega arith, tt));
}

abbrev first_generations : List Generation
first_generations =
    generations_of masking 0 (map (step_member masking) (members_of masking fresh (0 ∷ 0 ∷ [])))

fresh_stepped : generate_token masking fresh ≡ some (first_generations, some running)
unfolding generate_token run_forward members_of step_member all_stopped generations_of next_batch
    zip overwrite set_first set_firsts set_one maximum_stepped each set_at last_n decode_token call
    any_stop contains
fresh_stepped = refl

running-Live : Live padding_tokenizer masking 7 1 (running ∷ [])
unfolding each
running-Live =
    prefilled 0 (pb 4 3 (1 ∷ 3 ∷ []) ∷ pb 5 2 (7 ∷ []) ∷ []) ((1 ∷ 3 ∷ []) ∷ (0 ∷ 7 ∷ []) ∷ [])
      ((1 ∷ 1 ∷ []) ∷ (0 ∷ 1 ∷ []) ∷ []) (2 ∷ 1 ∷ []) (0 ∷ 0 ∷ []) fresh running (0 ∷ 0 ∷ []) seen
      [] first_generations idle refl fresh_PadsLeft refl fresh_made fresh-Answers refl fresh_stepped

kept-Live : Live padding_tokenizer masking 7 1 (kept ∷ [])
unfolding filter All
kept-Live = filtered running kept (5 ∷ []) running-Live (omega arith, tt) running_filtered

Live-IsJoinable_example : All (IsJoinable 1) (kept ∷ [])
Live-IsJoinable_example = Live-IsJoinable padding_tokenizer masking 7 1 kept-Live
