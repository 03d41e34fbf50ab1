-- ===== src/Flash/Generate/Step.antt =====
-- The batch that `generate_token` leaves.
use mathlib.Core.Option
use lorax.Prelude.{
  ℕ, ◌+◌, ◌-◌, max, Bool, true, false, ◌&&◌, not, Option, none, some, List, map, if◌then◌else◌,
  length, take, drop, gather, ◌>>=◌,
}
use lorax.Segments.{find_segments}
use lorax.Tokens.Ngram.{cumsum, last_accepted}
use lorax.Flash.{FlashCausalLmBatch}
use lorax.Flash.Filter.{maximum}
use lorax.Flash.Forward.{forward_inputs, speculative_meta}
use lorax.Flash.Generate.{
  Chosen, Engine, Generation, Member, Turn, write_rows, split_ids, add_each, members_of, turn,
  generations_of, advance_all, all_stop,
}

-- Where each request stands: in a prefill the last place of its prompt, afterwards its only place.
pub record Places : Type 0 where
  pub slot_indices : List ℕ
  pub position_ids : List ℕ
  pub adapter_indices : List ℕ
  pub adapter_segments : List ℕ

module _ {F Schema : Type 0} where
  -- `batch.slot_indices[cu_seqlen_prefill[1:] - 1]`, and what stands at `end_index - 1`.
  unfoldable pub places_of : FlashCausalLmBatch F Schema → Option Places
  places_of b = elim b.cu_seqlen_prefill [
    | none ↦ some (record {
      slot_indices = b.slot_indices;
      position_ids = b.position_ids;
      adapter_indices = b.adapter_meta.adapter_indices;
      adapter_segments = b.adapter_meta.adapter_segments;
    })
    | some cu_seqlen ↦
        let ends = map (λ n. n - 1) (cumsum 0 b.input_lengths) in
        gather b.slot_indices (map (λ n. n - 1) (drop 1 cu_seqlen)) >>= λ slot_indices.
        gather b.position_ids ends >>= λ position_ids.
        gather b.adapter_meta.adapter_indices ends >>= λ adapter_indices. some (record {
          slot_indices = slot_indices;
          position_ids = position_ids;
          adapter_indices = adapter_indices;
          adapter_segments = (find_segments adapter_indices).0;
        })
  ]

  abbrev pub is_prefill : FlashCausalLmBatch F Schema → Bool
  is_prefill b = elim b.cu_seqlen_prefill [ none ↦ false | some cu_seqlen ↦ true ]

-- What is computed for the batch before the second loop.
pub record Advanced : Type 0 where
  pub accepted : List (List ℕ)
  pub input_ids : List ℕ
  pub position_ids : List ℕ
  pub slot_indices : List ℕ
  pub input_lengths_tensor : List ℕ
  pub all_input_ids_tensor : List (List ℕ)

-- `batch.input_lengths[i] = input_length + num_accepted_ids`
abbrev pub new_length : {F : Type 0} → Member F × List ℕ → ℕ
new_length (m, accepted) = m.input_length + length accepted

module _ {F Schema : Type 0} (e : Engine F Schema) where
  unfoldable pub chosen_of : FlashCausalLmBatch F Schema → Option Chosen
  chosen_of b = do
    inputs ← forward_inputs b
    e.choose inputs (speculative_meta b) b.next_token_chooser
        (map (take b.max_seqlen) b.all_input_ids_tensor) b.speculative_ids

  unfoldable pub advanced_of : FlashCausalLmBatch F Schema → Places → Chosen → Option Advanced
  advanced_of b places chosen = do
    accepted ← split_ids chosen.accepted_ids chosen.next_input_ids
    all_input_ids_tensor ←
        write_rows chosen.next_input_ids 0 b.input_lengths accepted b.all_input_ids_tensor
    input_ids ← gather chosen.next_input_ids (last_accepted chosen.accepted_ids)
    position_ids ← add_each places.position_ids chosen.accepted_ids
    input_lengths_tensor ← add_each b.input_lengths_tensor chosen.accepted_ids
    slot_indices ← add_each places.slot_indices chosen.accepted_ids
    some (record {
      accepted = accepted;
      input_ids = input_ids;
      position_ids = position_ids;
      slot_indices = slot_indices;
      input_lengths_tensor = input_lengths_tensor;
      all_input_ids_tensor = all_input_ids_tensor;
    })

  abbrev pub turn_after : Member F × List ℕ → Turn
  turn_after m = (turn e m).1

  unfoldable pub next_batch :
      FlashCausalLmBatch F Schema → Places → Chosen → Advanced → FlashCausalLmBatch F Schema
  next_batch b places chosen a =
      let members = members_of b a.accepted in
      let lengths = map new_length members in
      record b {
        input_ids = a.input_ids;
        position_ids = a.position_ids;
        speculative_ids = chosen.speculative_ids;
        cu_seqlen_prefill = none;
        slot_indices = a.slot_indices;
        max_seqlen = max b.max_seqlen (maximum lengths) + 1;
        prefill_head_indices = none;
        prefill_next_token_indices = none;
        prefill_cu_outlens = none;
        prefill_cache_indices = none;
        input_lengths = lengths;
        input_lengths_tensor = a.input_lengths_tensor;
        prefix_offsets = map (λ m. (turn_after m).prefix_offset) members;
        read_offsets = map (λ m. (turn_after m).read_offset) members;
        all_input_ids = map (λ m. (turn_after m).ids) members;
        all_input_ids_tensor = a.all_input_ids_tensor;
        next_token_chooser = record b.next_token_chooser {
          schema_processor =
              Option.map (λ processors. advance_all e processors members)
                b.next_token_chooser.schema_processor;
        };
        stopping_criterias = map (λ m. (turn_after m).criteria) members;
        adapter_meta = record b.adapter_meta {
          adapter_indices = places.adapter_indices;
          adapter_segments = places.adapter_segments;
        };
      }

  -- During warmup no batch is taken for stopped.
  abbrev pub finished :
      Bool
      → FlashCausalLmBatch F Schema
      → Places
      → Chosen
      → Advanced
      → List Generation × Option (FlashCausalLmBatch F Schema)
  finished is_warmup b places chosen a =
      let members = members_of b a.accepted in
      (
        generations_of e (is_prefill b) 0 members,
        if not is_warmup && all_stop e members then none else some (next_batch b places chosen a),
      )

  unfoldable pub generate_token :
      Bool
      → FlashCausalLmBatch F Schema
      → Option (List Generation × Option (FlashCausalLmBatch F Schema))
  unfolding chosen_of places_of advanced_of next_batch
  generate_token is_warmup b = do
    chosen ← chosen_of b
    places ← places_of b
    a ← advanced_of b places chosen
    some (finished is_warmup b places chosen a)
