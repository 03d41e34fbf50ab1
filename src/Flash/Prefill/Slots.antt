-- ===== src/Flash/Prefill/Slots.antt =====
-- The slots of new requests.
use mathlib.Core.List.{flatten}
use lorax.Prelude.{
  ℕ, suc, ◌+◌, ◌-◌, ◌≤◌, ◌≡◌, refl, ap, ap₂, subst, sym, ◌∙◌, arith, true, Option, some, List, [],
  ◌∷◌, ◌++◌, map, length, length-map, Option-cases, inl, inr,
}
use lorax.Tokens.Stopping.{EosTokenId, new, from_pb as criteria_of}
use lorax.Tokens.Chooser.{FloatTests}
use lorax.Flash.{FlashCausalLmBatch}
use lorax.Flash.Filter.{starts, span, spans}
use lorax.Flash.Filter.Mask.{Chunk, Fits, all_slots}
use lorax.Flash.Filter.Layout.{IsLaidOut, lengths_of, spans_of}
use lorax.Flash.Concatenate.Slots.{some≢none, some-inj}
use lorax.Flash.Prefill.Blocks.{
  slots_for, block_behind, slots_for-blocks_or, block_behind-blocks_or, length-slots_for,
}
use lorax.Flash.Prefill.{
  PbRequest, Tokenizer, Settings, Prompt, zip_prompts, total_tokens, allocate, batch_of, tokenized,
  batch_if, from_pb,
}

module _ {F : Type 0} where
  -- The tokens that a request may take: those of its prompt, its new ones and the speculated ones,
  -- less the last, which is never fed back.
  abbrev pub tokens_of : ℕ → Prompt F → ℕ
  tokens_of speculative p =
      length p.tokens + p.pb.stopping_parameters.max_new_tokens + speculative - 1

  -- The router has given the request as many slots as its tokens may take, or no block.
  abbrev pub HasRoom : ℕ → Prompt F → Type 0
  HasRoom speculative p =
      (b : ℕ) (bs : List ℕ) → p.pb.blocks ≡ b ∷ bs → tokens_of speculative p ≤ length p.pb.slots

  abbrev pub AllHaveRoom : ℕ → List (Prompt F) → Type 0
  AllHaveRoom speculative [] = Unit
  AllHaveRoom speculative (p ∷ ps) = HasRoom speculative p × AllHaveRoom speculative ps

  -- The rows of the new batch: of each request the slots that it is to have, of which it needs all
  -- but those for speculation.
  pub prompt_rows : ℕ → ℕ → List (Prompt F) → List Chunk
  prompt_rows speculative num_blocks [] = []
  prompt_rows speculative num_blocks (p ∷ ps) =
      (
        true,
        length p.tokens + p.pb.stopping_parameters.max_new_tokens - 1,
        slots_for num_blocks (tokens_of speculative p) p.pb.blocks p.pb.slots,
      )
      ∷ prompt_rows speculative (block_behind num_blocks (tokens_of speculative p) p.pb.blocks) ps

  all_slots-prompt_rows :
      (speculative num_blocks : ℕ) (ps : List (Prompt F))
      → flatten (map (λ t. t.1) (allocate speculative num_blocks ps))
        ≡ all_slots (prompt_rows speculative num_blocks ps)
  unfolding allocate prompt_rows flatten total_tokens
  all_slots-prompt_rows speculative num_blocks [] = refl
  all_slots-prompt_rows speculative num_blocks (p ∷ ps) =
      let total = tokens_of speculative p in
      ap₂ (λ (xs ys : List ℕ). xs ++ ys)
        (slots_for-blocks_or num_blocks total p.pb.blocks p.pb.slots)
        (ap (λ n. flatten (map (λ t. t.1) (allocate speculative n ps)))
            (block_behind-blocks_or num_blocks total p.pb.blocks p.pb.slots)
          ∙ all_slots-prompt_rows speculative (block_behind num_blocks total p.pb.blocks) ps)

  lengths_of-prompt_rows :
      (speculative num_blocks : ℕ) (ps : List (Prompt F))
      → AllHaveRoom speculative ps
      → lengths_of (prompt_rows speculative num_blocks ps) ≡ map (total_tokens speculative) ps
  unfolding prompt_rows total_tokens
  lengths_of-prompt_rows speculative num_blocks [] h = refl
  lengths_of-prompt_rows speculative num_blocks (p ∷ ps) h =
      let total = tokens_of speculative p in
      ap₂ (λ (n : ℕ) (ns : List ℕ). n ∷ ns)
        (length-slots_for num_blocks total p.pb.blocks p.pb.slots h.0)
        (lengths_of-prompt_rows speculative (block_behind num_blocks total p.pb.blocks) ps h.1)

  length-prompt_rows :
      (speculative num_blocks : ℕ) (ps : List (Prompt F))
      → length (prompt_rows speculative num_blocks ps) ≡ length ps
  unfolding prompt_rows
  length-prompt_rows speculative num_blocks [] = refl
  length-prompt_rows speculative num_blocks (p ∷ ps) = ap suc (
      length-prompt_rows speculative (block_behind num_blocks (tokens_of speculative p) p.pb.blocks)
        ps)

  Fits-prompt_rows :
      (speculative num_blocks : ℕ) (ps : List (Prompt F))
      → AllHaveRoom speculative ps
      → Fits (prompt_rows speculative num_blocks ps)
  unfolding prompt_rows
  Fits-prompt_rows speculative num_blocks [] h = tt
  Fits-prompt_rows speculative num_blocks (p ∷ ps) h =
      let total = tokens_of speculative p in
      (
        omega (arith, length-slots_for num_blocks total p.pb.blocks p.pb.slots h.0),
        Fits-prompt_rows speculative (block_behind num_blocks total p.pb.blocks) ps h.1,
      )

  spans-prompt_rows :
      (speculative num_blocks : ℕ) (ps : List (Prompt F)) (eos : EosTokenId)
      → spans
          (map (λ p. length p.tokens) ps)
          (map (λ p. criteria_of p.pb.stopping_parameters eos) ps)
        ≡ spans_of (prompt_rows speculative num_blocks ps)
  unfolding prompt_rows spans span criteria_of new
  spans-prompt_rows speculative num_blocks [] eos = refl
  spans-prompt_rows speculative num_blocks (p ∷ ps) eos =
      ap₂ (λ (n : ℕ) (ns : List ℕ). n ∷ ns) (omega arith)
        (spans-prompt_rows speculative
          (block_behind num_blocks (tokens_of speculative p) p.pb.blocks) ps eos)

module _ {F Schema : Type 0} (f : FloatTests F) (settings : Settings)
    (tokenizer : Tokenizer F Schema) where
  batch_of-IsLaidOut :
      (id : ℕ) (requests : List (PbRequest F)) (prompts : List (Prompt F))
      (processors : List (Option Schema))
      → AllHaveRoom settings.speculative_tokens prompts
      → IsLaidOut
          (batch_of f settings tokenizer id requests prompts processors)
          (prompt_rows settings.speculative_tokens 0 prompts)
  unfolding batch_of
  batch_of-IsLaidOut id requests prompts processors room = record {
    slots = all_slots-prompt_rows settings.speculative_tokens 0 prompts;
    starts =
        ap (starts 0) (sym (lengths_of-prompt_rows settings.speculative_tokens 0 prompts room));
    needs = spans-prompt_rows settings.speculative_tokens 0 prompts tokenizer.eos_token_id;
    lengths =
        length-map (λ p. length p.tokens) prompts
        ∙ sym (length-prompt_rows settings.speculative_tokens 0 prompts);
    criterias =
        length-map _ prompts ∙ sym (length-prompt_rows settings.speculative_tokens 0 prompts);
    fits = Fits-prompt_rows settings.speculative_tokens 0 prompts room;
  }

  batch_if-some :
      (id : ℕ) (requests : List (PbRequest F)) (prompts : List (Prompt F))
      (processors : List (Option Schema)) (b : FlashCausalLmBatch F Schema)
      → batch_if f settings tokenizer id requests prompts processors ≡ some b
      → batch_of f settings tokenizer id requests prompts processors ≡ b
  batch_if-some id requests [] processors b h = ground (arith, h)
  batch_if-some id requests (p ∷ prompts) processors b h = some-inj _ b h

  -- A new batch is put together from its prompts.
  pub from_pb-batch_of :
      (id : ℕ) (requests : List (PbRequest F)) (inputs : List (List ℕ))
      (b : FlashCausalLmBatch F Schema)
      → tokenized f settings tokenizer requests ≡ some inputs
      → from_pb f settings tokenizer id requests ≡ some b
      → (processors : List (Option Schema)) × (batch_of f settings tokenizer id requests
            (zip_prompts requests inputs)
            processors
          ≡ b)
  unfolding from_pb
  from_pb-batch_of id requests inputs b e h =
      elim (Option-cases (tokenizer.compile_schemas requests)) [
        | inl p ↦ absurd (some≢none b (sym h ∙ rw (e, p)))
        | inr (processors, p) ↦ (
          processors,
          batch_if-some id requests (zip_prompts requests inputs) processors b
              (sym (rw (e, p)) ∙ h),
        )
      ]

  -- If every request was given no block by the router, or slots for the tokens of its prompt, its
  -- new and the speculated tokens less one, then a batch that `from_pb` makes is laid out request by
  -- request, with that many slots for each: the first that the router gave it, or consecutive ones
  -- from the next free block of 16 on. It needs all of them but the speculated tokens'.
  pub from_pb-IsLaidOut :
      (id : ℕ) (requests : List (PbRequest F)) (inputs : List (List ℕ))
      (b : FlashCausalLmBatch F Schema)
      → tokenized f settings tokenizer requests ≡ some inputs
      → AllHaveRoom settings.speculative_tokens (zip_prompts requests inputs)
      → from_pb f settings tokenizer id requests ≡ some b
      → IsLaidOut b (prompt_rows settings.speculative_tokens 0 (zip_prompts requests inputs))
  from_pb-IsLaidOut id requests inputs b e room h =
      let (processors, p) = from_pb-batch_of id requests inputs b e h in
      subst
        (λ c. IsLaidOut c (prompt_rows settings.speculative_tokens 0 (zip_prompts requests inputs)))
        p (batch_of-IsLaidOut id requests (zip_prompts requests inputs) processors room)
