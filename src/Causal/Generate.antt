-- ===== src/Causal/Generate.antt =====
-- `CausalLM.generate_token`: one step of all requests of a batch. Log probabilities and the tokens
-- of the prompt that a generation repeats are left out: they are read off the scores and change
-- nothing in the batch.
pub mod Rows
pub mod Members
pub mod Columns
pub mod Next
pub mod Keeps
pub mod Ends
use lorax.Prelude.{
  ℕ, zero, suc, ◌+◌, ◌-◌, ◌%◌, max, Bool, true, false, ◌&&◌, not, Option, none, some, List, [], ◌∷◌,
  ◌++◌, map, ◌==◌, if◌then◌else◌, length, take, drop, ltb, ◌>>=◌,
}
use lorax.Prelude.Int.{ℤ, pos, negsuc, sub_ℕ, ◌+ℤ◌, neg_ℤ}
use lorax.Tokens.Stopping.{Text, StoppingCriteria, FinishReason, call}
use lorax.Flash.{AdapterBatchMetadata}
use lorax.Flash.Generate.{GeneratedText, Generation, set_at}
use lorax.Flash.Prefill.{last_n}
use lorax.Flash.Texts.{decode_token, slice, slice_index}
use lorax.Causal.{Request, Layer, CausalLmBatch}
use lorax.Causal.Concatenate.{each}

-- The model's forward pass, the chooser on the logits, with the seed that it samples with and the
-- step of its schema, and the tokenizer. `L` are the logits of one request. `forward` gets the
-- adapter metadata, from which and the model's weights the adapter data are made.
-- `decode` is the model's, which skips the special tokens that `tokenizer_decode` writes.
pub record Engine (C K L : Type 0) : Type 0 where
  pub forward :
      List (List ℕ)
      → List (List ℕ)
      → List (List ℕ)
      → Option (List (Layer K))
      → AdapterBatchMetadata
      → Option (List L × List (Layer K))
  pub choose : C → List ℕ → L → ℕ
  pub next_state : C → ℕ → C
  pub seed : C → Option ℕ
  pub tokenizer_decode : List ℕ → Text
  pub decode : List ℕ → Text
  pub is_special : ℕ → Bool
  pub world_size : ℕ
  pub rank : ℕ

-- One request of a batch as the loop reads it, and as it leaves it.
pub record Member (C : Type 0) : Type 0 where
  pub request : Request
  pub input_length : ℕ
  pub prefix_offset : ℤ
  pub read_offset : ℤ
  pub chooser : C
  pub criteria : StoppingCriteria
  pub all_input_ids : List ℕ

pub record Stepped (C : Type 0) : Type 0 where
  pub member : Member C
  pub next_token_id : ℕ
  pub text : Text
  pub reason : Option FinishReason

-- `zip` stops at the end of the shorter list; of more than two lists it is nested here.
unfoldable pub zip : {A B : Type 0} → List A → List B → List (A × B)
zip [] ys = []
zip (x ∷ xs) [] = []
zip (x ∷ xs) (y ∷ ys) = (x, y) ∷ zip xs ys

-- `xs[i] = ...` for the first places, where the list is as long.
unfoldable pub overwrite : {A : Type 0} → List A → List A → List A
overwrite news olds = news ++ drop (length news) olds

-- `input_ids[i, 0] = next_token_id`
unfoldable pub set_first : ℕ → List ℕ → List ℕ
set_first id [] = []
set_first id (x ∷ row) = id ∷ row

unfoldable pub set_firsts : List ℕ → List (List ℕ) → List (List ℕ)
unfolding set_first
set_firsts [] rows = rows
set_firsts (id ∷ ids) [] = []
set_firsts (id ∷ ids) (row ∷ rows) = set_first id row ∷ set_firsts ids rows

-- `row[index] = 1`, where a negative index counts from the end; `none` is an IndexError.
unfoldable pub set_one : ℤ → List ℕ → Option (List ℕ)
set_one (pos i) row = set_at i 1 row
set_one (negsuc i) row = if ltb i (length row) then set_at (length row - (i + 1)) 1 row else none

module _ {C K L : Type 0} (e : Engine C K L) where
  -- The iterator of the loop.
  unfoldable pub members_of : CausalLmBatch C K → List L → List (Member C × L)
  unfolding zip
  members_of b logits =
      map
        (λ (r, (n, (p, (o, (l, (c, (s, ids))))))). (
          record {
            request = r;
            input_length = n;
            prefix_offset = p;
            read_offset = o;
            chooser = c;
            criteria = s;
            all_input_ids = ids;
          },
          l,
        ))
        (zip b.requests (
          zip b.input_lengths (
            zip b.prefix_offsets (
              zip b.read_offsets (
                zip logits
                  (zip b.next_token_choosers (zip b.stopping_criterias b.all_input_ids)))))))

  -- One round of the loop.
  unfoldable pub step_member : Member C × L → Stepped C
  step_member (m, logits) =
      let next_token_id = e.choose m.chooser m.all_input_ids logits in
      let all_input_ids = m.all_input_ids ++ next_token_id ∷ [] in
      let (text, offsets) =
        decode_token e.tokenizer_decode all_input_ids m.prefix_offset m.read_offset in
      let (criteria, reason) = call m.criteria next_token_id text in
      record {
        member = record m {
          input_length = m.input_length + 1;
          prefix_offset = offsets.0;
          read_offset = offsets.1;
          chooser = e.next_state m.chooser next_token_id;
          criteria = criteria;
          all_input_ids = all_input_ids;
        };
        next_token_id = next_token_id;
        text = text;
        reason = reason;
      }

  -- Whether every request has stopped.
  unfoldable pub all_stopped : List (Stepped C) → Bool
  all_stopped [] = true
  all_stopped (s ∷ ss) = elim s.reason [ none ↦ false | some reason ↦ all_stopped ss ]

  unfoldable pub generated_text : Stepped C → Option GeneratedText
  generated_text s = elim s.reason [
    | none ↦ none
    | some reason ↦ some (record {
      text = e.decode (last_n s.member.criteria.current_tokens s.member.all_input_ids);
      generated_tokens = s.member.criteria.current_tokens;
      finish_reason = reason;
      seed = e.seed s.member.chooser;
    })
  ]

  -- The generations of the requests from index `i` on that this rank answers for.
  unfoldable pub generations_of : ℕ → List (Stepped C) → List Generation
  unfolding generated_text
  generations_of i [] = []
  generations_of i (s ∷ ss) =
      let rest = generations_of (i + 1) ss in
      if i % e.world_size == e.rank
      then record {
        request_id = s.member.request.id;
        prefill_tokens_length =
            if s.member.criteria.current_tokens == 1 && s.member.request.prefill_logprobs
            then s.member.input_length - 1
            else 0;
        token_ids = s.next_token_id ∷ [];
        texts = s.text ∷ [];
        is_special = e.is_special s.next_token_id ∷ [];
        generated_text = generated_text s;
      }
        ∷ rest
      else rest

  unfoldable pub maximum_stepped : ℕ → List (Stepped C) → ℕ
  maximum_stepped n [] = n
  maximum_stepped n (s ∷ ss) = maximum_stepped (max n s.member.input_length) ss

  -- The batch that goes on, once the loop has run and the model has returned its past.
  unfoldable pub next_batch :
      CausalLmBatch C K → List (Stepped C) → List (Layer K) → Option (CausalLmBatch C K)
  unfolding overwrite set_firsts set_one maximum_stepped
  next_batch b stepped past = do
    mask ← each (set_one (neg_ℤ b.padding_right_offset)) b.attention_mask
    some (record b {
      input_ids = map (take 1) (set_firsts (map (λ s. s.next_token_id) stepped) b.input_ids);
      attention_mask = mask;
      position_ids = map (λ row. map (λ p. p + 1) (last_n 1 row)) b.position_ids;
      past_key_values = some past;
      all_input_ids = overwrite (map (λ s. s.member.all_input_ids) stepped) b.all_input_ids;
      input_lengths = overwrite (map (λ s. s.member.input_length) stepped) b.input_lengths;
      prefix_offsets = overwrite (map (λ s. s.member.prefix_offset) stepped) b.prefix_offsets;
      read_offsets = overwrite (map (λ s. s.member.read_offset) stepped) b.read_offsets;
      next_token_choosers = overwrite (map (λ s. s.member.chooser) stepped) b.next_token_choosers;
      stopping_criterias = overwrite (map (λ s. s.member.criteria) stepped) b.stopping_criterias;
      adapter_meta = record b.adapter_meta {
        adapter_indices = map (λ s. s.member.request.adapter_index) stepped;
      };
      max_input_length = maximum_stepped b.max_input_length stepped;
      padding_right_offset = b.padding_right_offset +ℤ negsuc 0;
    })

  -- What `forward` is handed.
  unfoldable pub run_forward : CausalLmBatch C K → Option (List L × List (Layer K))
  run_forward b =
      e.forward b.input_ids (map (slice (pos 0) (neg_ℤ b.padding_right_offset)) b.attention_mask)
        b.position_ids b.past_key_values b.adapter_meta

  unfoldable pub generate_token :
      CausalLmBatch C K → Option (List Generation × Option (CausalLmBatch C K))
  unfolding run_forward members_of step_member all_stopped generations_of next_batch
  generate_token b = do
    (logits, past) ← run_forward b
    let stepped = map step_member (members_of b logits)
    let generations = generations_of 0 stepped
    if all_stopped stepped
        then some (generations, none)
        else next_batch b stepped past >>= λ b'. some (generations, some b')
