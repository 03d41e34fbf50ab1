-- ===== src/Flash/Generate.antt =====
-- `FlashCausalLM.generate_token`: one step of all requests of a batch. Log probabilities, the
-- alternative tokens and the tokens of the prompt that a generation repeats are left out: they are
-- read off the scores and change nothing in the batch.
pub mod Members
pub mod Coherent
pub mod Step
pub mod Slots
pub mod Accepted
pub mod Written
pub mod Fed
use mathlib.Core.Option
use lorax.Prelude.{
  ℕ, zero, suc, ◌+◌, ◌-◌, ◌%◌, max, Bool, true, false, ◌&&◌, not, Option, none, some, List, [], ◌∷◌,
  ◌++◌, map, ◌==◌, if◌then◌else◌, length, take, drop, gather, get_elem?, ◌>>=◌,
}
use lorax.Prelude.Int.{ℤ, pos}
use lorax.Segments.{find_segments}
use lorax.Tokens.Stopping.{Text, StoppingCriteria, FinishReason, call}
use lorax.Tokens.Ngram.{cumsum, last_accepted}
use lorax.Tokens.Chooser.{Chooser}
use lorax.Flash.{Request, AdapterBatchMetadata, FlashCausalLmBatch}
use lorax.Flash.Prefill.{last_n}
use lorax.Flash.Texts.{decode_token}
use lorax.Flash.Forward.{ForwardInputs, forward_inputs, speculative_meta}

-- What the model and the chooser return: the chosen ids, how many of each request are accepted, and
-- the ids that are speculated next.
pub record Chosen : Type 0 where
  pub next_input_ids : List ℕ
  pub accepted_ids : List ℕ
  pub speculative_ids : Option (List (List ℕ))

-- The model's forward pass and the chooser on its logits, the tokenizer, and the step of a schema
-- processor. `none` is an exception. `choose` gets `all_input_ids_tensor[:, : max_seqlen]`. `decode`
-- is the model's, which skips the special tokens that `tokenizer_decode` writes.
pub record Engine (F Schema : Type 0) : Type 0 where
  pub choose :
      ForwardInputs
      → AdapterBatchMetadata
      → Chooser F Schema
      → List (List ℕ)
      → Option (List (List ℕ))
      → Option Chosen
  pub tokenizer_decode : List ℕ → Text
  pub decode : List ℕ → Text
  pub is_special : ℕ → Bool
  pub next_state : Schema → ℕ → Schema
  pub world_size : ℕ
  pub rank : ℕ

pub record GeneratedText : Type 0 where
  pub text : Text
  pub generated_tokens : ℕ
  pub finish_reason : FinishReason
  pub seed : Option ℕ

pub record Generation : Type 0 where
  pub request_id : ℕ
  pub prefill_tokens_length : ℕ
  pub token_ids : List ℕ
  pub texts : List Text
  pub is_special : List Bool
  pub generated_text : Option GeneratedText

-- `xs[i] = x`; `none` is an IndexError.
unfoldable pub set_at : ℕ → ℕ → List ℕ → Option (List ℕ)
set_at i x [] = none
set_at zero x (y ∷ ys) = some (x ∷ ys)
set_at (suc i) x (y ∷ ys) = Option.map (λ zs. y ∷ zs) (set_at i x ys)

-- `for j in range(n): row[i + j] = ids[j]`
unfoldable pub write_ids : ℕ → List ℕ → List ℕ → Option (List ℕ)
unfolding set_at
write_ids i [] row = some row
write_ids i (id ∷ ids) row = do written ← set_at i id row; write_ids (i + 1) ids written

-- The accepted ids of each request; `none` is an IndexError.
unfoldable pub split_ids : List ℕ → List ℕ → Option (List (List ℕ))
split_ids [] next_ids = some []
split_ids (n ∷ accepted_ids) next_ids = do
  rest ← split_ids accepted_ids (drop n next_ids)
  if length (take n next_ids) == n then some (take n next_ids ∷ rest) else none

-- The first loop's writes to `all_input_ids_tensor`, on row `i` and those behind it.
unfoldable pub write_rows :
    List ℕ → ℕ → List ℕ → List (List ℕ) → List (List ℕ) → Option (List (List ℕ))
unfolding write_ids set_at
write_rows next_ids i [] ids rows = some rows
write_rows next_ids i (n ∷ ns) [] rows = some rows
write_rows next_ids i (n ∷ ns) (accepted ∷ ids) [] = none
write_rows next_ids i (n ∷ ns) (accepted ∷ ids) (row ∷ rows) = do
  id ← get_elem? next_ids i
  row' ← set_at n id row
  row'' ← write_ids n accepted row'
  rest ← write_rows next_ids (i + 1) ns ids rows
  some (row'' ∷ rest)

-- `xs + accepted_ids`; `none` is a RuntimeError for tensors of different sizes.
unfoldable pub add_each : List ℕ → List ℕ → Option (List ℕ)
add_each [] [] = some []
add_each [] (n ∷ ns) = none
add_each (x ∷ xs) [] = none
add_each (x ∷ xs) (n ∷ ns) = do rest ← add_each xs ns; some ((x + n) ∷ rest)

-- What a request brings to the second loop.
pub record Member (F : Type 0) : Type 0 where
  pub request : Request F
  pub input_length : ℕ
  pub prefix_offset : ℤ
  pub read_offset : ℤ
  pub criteria : StoppingCriteria
  pub all_input_ids : List ℕ
  pub do_sample : Bool
  pub seed : ℕ

-- The variables of the loop over a request's accepted tokens, and the reason of the last call.
pub record Turn : Type 0 where
  pub ids : List ℕ
  pub prefix_offset : ℤ
  pub read_offset : ℤ
  pub criteria : StoppingCriteria
  pub texts : List Text
  pub reason : Option FinishReason

module _ {F Schema : Type 0} (e : Engine F Schema) where
  -- One round: append, decode, ask the stopping criteria.
  unfoldable pub take_token : ℕ → Turn → Turn
  take_token id t =
      let ids = t.ids ++ id ∷ [] in
      let (text, offsets) = decode_token e.tokenizer_decode ids t.prefix_offset t.read_offset in
      let (criteria, reason) = call t.criteria id text in
      record {
        ids = ids;
        prefix_offset = offsets.0;
        read_offset = offsets.1;
        criteria = criteria;
        texts = t.texts ++ text ∷ [];
        reason = reason;
      }

  -- The loop, with its `break`; `left` is how many tokens it did not take.
  unfoldable pub take_tokens : List ℕ → Turn → ℕ × Turn
  unfolding take_token
  take_tokens [] t = (0, t)
  take_tokens (id ∷ accepted) t =
      let t' = take_token id t in
      elim t'.reason [ none ↦ take_tokens accepted t' | some reason ↦ (length accepted, t') ]

  abbrev pub turn_of : Member F → Turn
  turn_of m = record {
    ids = m.all_input_ids;
    prefix_offset = m.prefix_offset;
    read_offset = m.read_offset;
    criteria = m.criteria;
    texts = [];
    reason = none;
  }

  abbrev pub turn : Member F × List ℕ → ℕ × Turn
  turn (m, accepted) = take_tokens accepted (turn_of m)

  abbrev pub generated_text_of : Member F → Turn → Option GeneratedText
  generated_text_of m t =
      Option.map
        (λ reason. record {
          text = e.decode (last_n t.criteria.current_tokens t.ids);
          generated_tokens = t.criteria.current_tokens;
          finish_reason = reason;
          seed = if m.do_sample then some m.seed else none;
        })
        t.reason

  unfoldable pub generation_of : Bool → Member F × List ℕ → Generation
  unfolding take_tokens
  generation_of prefill (m, accepted) =
      let (left, t) = turn (m, accepted) in
      let ids = take (length accepted - left) accepted in
      record {
        request_id = m.request.id;
        prefill_tokens_length = if prefill then length t.ids - 1 else 0;
        token_ids = ids;
        texts = t.texts;
        is_special = map e.is_special ids;
        generated_text = generated_text_of m t;
      }

  -- Each rank returns the generations of its own requests.
  unfoldable pub generations_of : Bool → ℕ → List (Member F × List ℕ) → List Generation
  unfolding generation_of
  generations_of prefill i [] = []
  generations_of prefill i (m ∷ members) =
      let rest = generations_of prefill (i + 1) members in
      if i % e.world_size == e.rank then generation_of prefill m ∷ rest else rest

  -- `next_token_chooser.next_state(i, id)` for each taken token of each request.
  unfoldable pub advance : Schema → List ℕ → Schema
  advance schema [] = schema
  advance schema (id ∷ ids) = advance (e.next_state schema id) ids

  unfoldable pub advance_all :
      List (Option Schema) → List (Member F × List ℕ) → List (Option Schema)
  unfolding advance take_tokens
  advance_all [] members = []
  advance_all (p ∷ processors) [] = p ∷ processors
  advance_all (p ∷ processors) ((m, accepted) ∷ members) =
      Option.map
        (λ schema. advance schema (take (length accepted - (turn (m, accepted)).0) accepted)) p
      ∷ advance_all processors members

  abbrev pub stops : Member F × List ℕ → Bool
  stops m = elim (turn m).1.reason [ none ↦ false | some reason ↦ true ]

  unfoldable pub all_stop : List (Member F × List ℕ) → Bool
  unfolding take_tokens
  all_stop [] = true
  all_stop (m ∷ members) = stops m && all_stop members

-- The iterator of the second loop.
unfoldable pub zip_members :
    {F : Type 0}
    → List (Request F)
    → List ℕ
    → List ℤ
    → List ℤ
    → List StoppingCriteria
    → List (List ℕ)
    → List Bool
    → List ℕ
    → List (List ℕ)
    → List (Member F × List ℕ)
zip_members (r ∷ rs) (n ∷ ns) (p ∷ ps) (o ∷ os) (c ∷ cs) (ids ∷ idss) (d ∷ ds) (s ∷ ss) (a ∷ as') =
    (
      record {
        request = r;
        input_length = n;
        prefix_offset = p;
        read_offset = o;
        criteria = c;
        all_input_ids = ids;
        do_sample = d;
        seed = s;
      },
      a,
    )
    ∷ zip_members rs ns ps os cs idss ds ss as'
zip_members _ _ _ _ _ _ _ _ _ = []

module _ {F Schema : Type 0} where
  abbrev pub members_of : FlashCausalLmBatch F Schema → List (List ℕ) → List (Member F × List ℕ)
  members_of b ids =
      zip_members b.requests b.input_lengths b.prefix_offsets b.read_offsets b.stopping_criterias
        b.all_input_ids b.next_token_chooser.do_sample b.next_token_chooser.seeds ids
