-- ===== src/Tests/Steps.antt =====
-- New batches, and a step of the batch of two requests: one stops at its limit, one goes on.
use mathlib.Core.List.{flatten}
use lorax.Prelude.{
  ℕ, ◌+◌, ◌≡◌, leb, refl, arith, map, true, false, none, some, List, [], ◌∷◌, gather, contains,
}
use lorax.Prelude.Int.{pos}
use lorax.Segments.{find_segments, scan, scan_step, close}
use lorax.Tokens.Stopping.{one_id, any_stop, call, from_pb as criteria_from, new as new_criteria}
use lorax.Tokens.Chooser.{warpers_of, from_pb as parameters_of, new as new_chooser}
use lorax.Flash.Concatenate.{pad_row}
use lorax.Tokens.Ngram.{arange, cumsum, last_accepted}
use lorax.Flash.{FlashCausalLmBatch}
use lorax.Flash.Filter.{last_slots, starts, spans, span, maximum}
use lorax.Flash.Filter.Layout.{IsLaidOut}
use lorax.Flash.Prefill.{
  PbRequest, Tokenizer, Settings, Prompt, zip_prompts, batch_of, tokenized, from_pb, all_tokenized,
  last_n, ranges, allocate, slots_of_blocks, total_tokens, adapter_indices_of,
}
use lorax.Flash.Prefill.Slots.{prompt_rows, from_pb-IsLaidOut}
use lorax.Flash.Texts.{decode_token, ends_unfinished}
use lorax.Flash.Forward.{ForwardInputs, cat_rows, expand_ranges, repeat_each, forward_inputs}
use lorax.Flash.Forward.Slots.{RunOn, NextSlots, forward_inputs-slots}
use lorax.Sizes.{max_batch_size, can_use_graph, graph_key, warmup, has_graph}
use lorax.Sizes.Graphs.{can_use_graph-traced}
use lorax.Flash.Generate.{
  Chosen, Engine, Generation, Member, set_at, write_ids, split_ids, write_rows, add_each,
  take_token, take_tokens, generations_of, all_stop, zip_members, members_of,
}
use lorax.Flash.Generate.Step.{
  Places, Advanced, places_of, chosen_of, advanced_of, next_batch, generate_token,
}
use lorax.Flash.Generate.Coherent.{IsCoherent, Stepped, generate_token-IsCoherent}
use lorax.Flash.Generate.Members.{pairs}
use lorax.Flash.Generate.Fed.{Fed, generate_token-Fed}
use lorax.Flash.Generate.Slots.{OwnSlots, generate_token-IsLaidOut, slot_indices-OwnSlots}
use lorax.Flash.Life.{idle, prefilled}
use lorax.Flash.Life.Server.{EachCoherent, Live-EachCoherent}
use lorax.Tests.Batching.{tenths, two_requests, criteria_of, request, chunks}

abbrev plain_tokenizer : Tokenizer ℕ ℕ
plain_tokenizer = record {
  tokenize = λ texts n. some texts;
  eos_token_id = one_id 2;
  compile_schemas = λ requests. some (map (λ r. none) requests);
}

abbrev plain_settings : Settings
plain_settings = record { sliding_window = none; speculative_tokens = 0 }

abbrev new_request : PbRequest ℕ
new_request = record {
  request = request 7 4;
  inputs = 3 ∷ 5 ∷ [];
  tokenized_inputs = none;
  truncate = 10;
  stopping_parameters = record {
    stop_sequences = [];
    max_new_tokens = 4;
    ignore_eos_token = false;
  };
  prefill_logprobs = false;
  blocks = [];
  slots = [];
}

abbrev new_prompts : List (Prompt ℕ)
new_prompts = record { pb = new_request; tokens = 3 ∷ 5 ∷ [] } ∷ []

abbrev new_batch : FlashCausalLmBatch ℕ ℕ
new_batch =
    batch_of tenths plain_settings plain_tokenizer 1 (new_request ∷ []) new_prompts (none ∷ [])

new_inputs :
    tokenized tenths plain_settings plain_tokenizer (new_request ∷ []) ≡ some ((3 ∷ 5 ∷ []) ∷ [])
unfolding tokenized all_tokenized
new_inputs = refl

new_made : from_pb tenths plain_settings plain_tokenizer 1 (new_request ∷ []) ≡ some new_batch
unfolding from_pb tokenized all_tokenized zip_prompts last_n
new_made = refl

from_pb-IsLaidOut_example :
    IsLaidOut new_batch (prompt_rows 0 0 (zip_prompts (new_request ∷ []) ((3 ∷ 5 ∷ []) ∷ [])))
unfolding zip_prompts
from_pb-IsLaidOut_example =
    from_pb-IsLaidOut tenths plain_settings plain_tokenizer 1 (new_request ∷ []) ((3 ∷ 5 ∷ []) ∷ [])
      new_batch new_inputs ((λ b bs h. ground (arith, h)), tt) new_made

-- An engine that chooses token 7 for each request, and decodes a token as the character of its id.
abbrev sevens : Engine ℕ ℕ
sevens = record {
  choose = λ inputs meta chooser ids speculative. some (record {
    next_input_ids = map (λ row. 7) ids;
    accepted_ids = map (λ row. 1) ids;
    speculative_ids = none;
  });
  tokenizer_decode = λ ids. ids;
  decode = λ ids. ids;
  is_special = λ id. false;
  next_state = λ schema id. schema + id;
  world_size = 1;
  rank = 0;
}

-- The batch of two requests, with room for a token more in each row.
abbrev decoding : FlashCausalLmBatch ℕ ℕ
decoding = record two_requests {
  all_input_ids_tensor = (3 ∷ 4 ∷ 5 ∷ 0 ∷ []) ∷ (3 ∷ 6 ∷ 0 ∷ 0 ∷ []) ∷ [];
}

abbrev two_members : List (Member ℕ)
two_members =
    record {
      request = request 7 0;
      input_length = 3;
      prefix_offset = pos 0;
      read_offset = pos 2;
      criteria = criteria_of 3;
      all_input_ids = 3 ∷ 4 ∷ 5 ∷ [];
      do_sample = false;
      seed = 1;
    }
    ∷ record {
      request = request 9 4;
      input_length = 2;
      prefix_offset = pos 0;
      read_offset = pos 1;
      criteria = criteria_of 2;
      all_input_ids = 3 ∷ 6 ∷ [];
      do_sample = false;
      seed = 2;
    }
    ∷ []

decoding-IsCoherent : IsCoherent decoding two_members
unfolding last_slots
decoding-IsCoherent = record {
  members = record {
    requests = refl;
    lengths = refl;
    prefixes = refl;
    reads = refl;
    criterias = refl;
    ids = refl;
    samples = refl;
    seeds = refl;
  };
  decodes = refl;
  positive = (omega arith, (omega arith, tt));
  tensor = refl;
  positions = refl;
  last = refl;
  starts = refl;
}

abbrev two_places : Places
two_places = record {
  slot_indices = 2 ∷ 5 ∷ [];
  position_ids = 2 ∷ 1 ∷ [];
  adapter_indices = 0 ∷ 4 ∷ [];
  adapter_segments = 0 ∷ 1 ∷ 2 ∷ [];
}

abbrev two_sevens : Chosen
two_sevens = record {
  next_input_ids = 7 ∷ 7 ∷ [];
  accepted_ids = 1 ∷ 1 ∷ [];
  speculative_ids = none;
}

abbrev two_advanced : Advanced
two_advanced = record {
  accepted = (7 ∷ []) ∷ (7 ∷ []) ∷ [];
  input_ids = 7 ∷ 7 ∷ [];
  position_ids = 3 ∷ 2 ∷ [];
  slot_indices = 3 ∷ 6 ∷ [];
  input_lengths_tensor = 4 ∷ 3 ∷ [];
  all_input_ids_tensor = (3 ∷ 4 ∷ 5 ∷ 7 ∷ []) ∷ (3 ∷ 6 ∷ 7 ∷ 0 ∷ []) ∷ [];
}

abbrev stepped : FlashCausalLmBatch ℕ ℕ
stepped = next_batch sevens decoding two_places two_sevens two_advanced

abbrev two_generations : List Generation
two_generations = generations_of sevens false 0 (members_of decoding ((7 ∷ []) ∷ (7 ∷ []) ∷ []))

decoding-advanced : advanced_of sevens decoding two_places two_sevens ≡ some two_advanced
unfolding advanced_of set_at write_ids split_ids write_rows add_each last_accepted cumsum gather
decoding-advanced = refl

decoding-stepped : generate_token sevens false decoding ≡ some (two_generations, some stepped)
unfolding generate_token chosen_of forward_inputs places_of advanced_of set_at write_ids split_ids
    write_rows add_each last_accepted cumsum gather all_stop take_tokens take_token call any_stop
    decode_token ends_unfinished zip_members contains
decoding-stepped = refl

generate_token-IsCoherent_example : (ms : List (Member ℕ)) × IsCoherent stepped ms
generate_token-IsCoherent_example =
    generate_token-IsCoherent sevens false decoding stepped two_generations two_members
      decoding-IsCoherent decoding-stepped

steps : Stepped sevens decoding stepped
unfolding places_of
steps = record {
  places = two_places;
  chosen = two_sevens;
  advanced = two_advanced;
  at_places = refl;
  advances = decoding-advanced;
  result = refl;
}

generate_token-Fed_example :
    Fed sevens
      (pairs two_members ((7 ∷ []) ∷ (7 ∷ []) ∷ []))
      stepped.input_ids
      stepped.input_lengths
      stepped.all_input_ids
      decoding.all_input_ids_tensor
      stepped.all_input_ids_tensor
unfolding steps
generate_token-Fed_example =
    generate_token-Fed sevens decoding stepped two_members steps decoding-IsCoherent.members refl
      (omega arith, (omega arith, tt))

decoding-IsLaidOut : IsLaidOut decoding chunks
unfolding starts spans span
decoding-IsLaidOut = record {
  slots = refl;
  starts = refl;
  needs = refl;
  lengths = refl;
  criterias = refl;
  fits = (omega arith, (omega arith, tt));
}

generate_token-IsLaidOut_example : IsLaidOut stepped chunks
unfolding zip_members take_tokens take_token call any_stop decode_token ends_unfinished contains
    steps
generate_token-IsLaidOut_example =
    generate_token-IsLaidOut sevens decoding stepped two_members chunks steps decoding-IsCoherent
      (refl, (refl, tt)) decoding-IsLaidOut

slot_indices-OwnSlots_example :
    (ys : List ℕ) × (gather decoding.slots (2 ∷ 5 ∷ []) ≡ some ys) × OwnSlots chunks (3 ∷ 2 ∷ []) ys
slot_indices-OwnSlots_example =
    slot_indices-OwnSlots decoding two_members chunks decoding-IsCoherent decoding-IsLaidOut
      (omega arith, (omega arith, tt))

-- The first step of the new batch.
abbrev new_stepped : FlashCausalLmBatch ℕ ℕ
new_stepped =
    next_batch sevens new_batch
      (record {
        slot_indices = 1 ∷ [];
        position_ids = 1 ∷ [];
        adapter_indices = 4 ∷ [];
        adapter_segments = 0 ∷ 1 ∷ [];
      })
      (record { next_input_ids = 7 ∷ []; accepted_ids = 1 ∷ []; speculative_ids = none })
      (record {
        accepted = (7 ∷ []) ∷ [];
        input_ids = 7 ∷ [];
        position_ids = 2 ∷ [];
        slot_indices = 2 ∷ [];
        input_lengths_tensor = 3 ∷ [];
        all_input_ids_tensor = (3 ∷ 5 ∷ 7 ∷ 0 ∷ 0 ∷ 0 ∷ []) ∷ [];
      })

new_generated :
    generate_token sevens false new_batch
    ≡ some (generations_of sevens true 0 (members_of new_batch ((7 ∷ []) ∷ [])), some new_stepped)
unfolding generate_token chosen_of forward_inputs places_of advanced_of set_at write_ids split_ids
    write_rows add_each last_accepted cumsum gather all_stop take_tokens take_token call any_stop
    decode_token ends_unfinished zip_members contains batch_of ranges arange starts allocate
    slots_of_blocks total_tokens adapter_indices_of find_segments scan scan_step close flatten
    criteria_from new_criteria new_chooser parameters_of warpers_of pad_row maximum
new_generated = refl

Live-EachCoherent_example : EachCoherent (new_stepped ∷ [])
unfolding zip_prompts last_n
Live-EachCoherent_example = Live-EachCoherent tenths plain_settings plain_tokenizer sevens (
    prefilled 1 (new_request ∷ []) ((3 ∷ 5 ∷ []) ∷ []) new_batch new_stepped _ idle new_inputs refl
      (omega arith, tt) new_made new_generated)

-- The batch of two requests with a speculated token each.
abbrev speculating : FlashCausalLmBatch ℕ ℕ
speculating = record decoding { speculative_ids = some ((8 ∷ []) ∷ (9 ∷ []) ∷ []) }

abbrev speculating_inputs : ForwardInputs
speculating_inputs = record {
  input_ids = 5 ∷ 8 ∷ 6 ∷ 9 ∷ [];
  position_ids = 2 ∷ 3 ∷ 1 ∷ 2 ∷ [];
  cu_seqlen_prefill = none;
  block_tables = (0 ∷ []) ∷ (0 ∷ []) ∷ (1 ∷ []) ∷ (1 ∷ []) ∷ [];
  slots = 12 ∷ 13 ∷ 21 ∷ 22 ∷ [];
  input_lengths = 3 ∷ 4 ∷ 2 ∷ 3 ∷ [];
  max_s = 4;
  prefill_cache_indices = none;
  lm_head_indices = none;
}

speculating-handed : forward_inputs speculating ≡ some speculating_inputs
unfolding forward_inputs cat_rows expand_ranges repeat_each gather arange
speculating-handed = refl

speculating-RunOn : RunOn speculating.slots 2 (2 ∷ 5 ∷ [])
speculating-RunOn = ((12, λ j h. ground arith), ((21, λ j h. ground arith), tt))

forward_inputs-slots_example : NextSlots speculating.slots 2 (2 ∷ 5 ∷ []) (12 ∷ 13 ∷ 21 ∷ 22 ∷ [])
forward_inputs-slots_example =
    forward_inputs-slots speculating speculating_inputs (8 ∷ []) ((9 ∷ []) ∷ []) refl
      speculating-RunOn speculating-handed

can_use_graph-traced_example :
    (has_graph warmup (graph_key 4 (16 ∷ [])) ≡ leb 4 max_batch_size)
    × (speculating.speculative_ids ≡ none → has_graph warmup (graph_key 4 (16 ∷ [])) ≡ true)
unfolding can_use_graph contains maximum
can_use_graph-traced_example =
    can_use_graph-traced speculating speculating_inputs speculating-handed true 4096 (16 ∷ []) true
      refl
