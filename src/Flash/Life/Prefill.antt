-- ===== src/Flash/Life/Prefill.antt =====
-- A new batch, before its first step.
use lorax.Prelude.{
  ℕ, ◌≡◌, refl, ap₂, sym, subst, ◌∙◌, arith, Option, some, List, [], ◌∷◌, map, length, length-map,
}
use lorax.Prelude.Int.{pos, sub_ℕ}
use lorax.Tokens.Stopping.{from_pb as criteria_of}
use lorax.Tokens.Chooser.{FloatTests}
use lorax.Tokens.Chooser.Laws.{samples}
use lorax.Flash.{FlashCausalLmBatch}
use lorax.Flash.Prefill.{
  PbRequest, Tokenizer, Settings, Prompt, zip_prompts, total_tokens, batch_of, tokenized, from_pb,
}
use lorax.Flash.Prefill.Slots.{from_pb-batch_of}
use lorax.Flash.Prefill.Ends.{AllPositive}
use lorax.Flash.Generate.{Member}
use lorax.Flash.Generate.Members.{map-map}
use lorax.Flash.Generate.Coherent.{IsPrompted}
use lorax.Flash.Life.Filter.{length-starts_of}
use lorax.Flash.Life.Concatenate.{new-columns}

module _ {F Schema : Type 0} (f : FloatTests F) (settings : Settings)
    (tokenizer : Tokenizer F Schema) where
  -- The member that a request begins as.
  abbrev pub member_of : Prompt F → Member F
  member_of p = record {
    request = p.pb.request;
    input_length = length p.tokens;
    prefix_offset = sub_ℕ (length p.tokens) 5;
    read_offset = pos (length p.tokens);
    criteria = criteria_of p.pb.stopping_parameters tokenizer.eos_token_id;
    all_input_ids = p.tokens;
    do_sample = samples f p.pb.request.parameters;
    seed = p.pb.request.parameters.seed;
  }

  zip_prompts-requests :
      (requests : List (PbRequest F)) (inputs : List (List ℕ))
      → length inputs ≡ length requests
      → map (λ r. r.request) requests ≡ map (λ p. p.pb.request) (zip_prompts requests inputs)
  unfolding zip_prompts
  zip_prompts-requests [] inputs h = refl
  zip_prompts-requests (r ∷ rs) [] h = absurd (omega arith)
  zip_prompts-requests (r ∷ rs) (ids ∷ inputs) h =
      ap₂ (λ x xs. x ∷ xs) refl (zip_prompts-requests rs inputs (omega arith))

  batch_of-IsPrompted :
      (id : ℕ) (requests : List (PbRequest F)) (inputs : List (List ℕ))
      (processors : List (Option Schema))
      → length inputs ≡ length requests
      → AllPositive (map (λ p. length p.tokens) (zip_prompts requests inputs))
      → IsPrompted
          (batch_of f settings tokenizer id requests (zip_prompts requests inputs) processors)
          (map member_of (zip_prompts requests inputs))
  unfolding batch_of
  batch_of-IsPrompted id requests inputs processors size positive =
      let ps = zip_prompts requests inputs in
      let (flags, seeds) = new-columns f (map (λ p. p.pb.request.parameters) ps) processors in
      record {
        members = record {
          requests =
              zip_prompts-requests requests inputs size
              ∙ sym (map-map (λ m. m.request) member_of ps);
          lengths = sym (map-map (λ m. m.input_length) member_of ps);
          prefixes =
              map-map (λ n. sub_ℕ n 5) (λ p. length p.tokens) ps
              ∙ sym (map-map (λ m. m.prefix_offset) member_of ps);
          reads =
              map-map pos (λ p. length p.tokens) ps
              ∙ sym (map-map (λ m. m.read_offset) member_of ps);
          criterias = sym (map-map (λ m. m.criteria) member_of ps);
          ids = sym (map-map (λ m. m.all_input_ids) member_of ps);
          samples =
              flags
              ∙ map-map (samples f) (λ p. p.pb.request.parameters) ps
              ∙ sym (map-map (λ m. m.do_sample) member_of ps);
          seeds =
              seeds
              ∙ map-map (λ r. r.seed) (λ p. p.pb.request.parameters) ps
              ∙ sym (map-map (λ m. m.seed) member_of ps);
        };
        prefills = refl;
        positive = positive;
        tensor = refl;
        positions = refl;
        places = refl;
        starts =
            length-starts_of 0 (map (total_tokens settings.speculative_tokens) ps)
            ∙ length-map (total_tokens settings.speculative_tokens) ps
            ∙ sym (length-map (λ p. length p.tokens) ps);
      }

  -- A batch that is made from requests, with a prompt for each that is not empty, has the places of
  -- every token of the prompts, and a member for each prompt.
  pub from_pb-IsPrompted :
      (id : ℕ) (requests : List (PbRequest F)) (inputs : List (List ℕ))
      (b : FlashCausalLmBatch F Schema)
      → tokenized f settings tokenizer requests ≡ some inputs
      → length inputs ≡ length requests
      → AllPositive (map (λ p. length p.tokens) (zip_prompts requests inputs))
      → from_pb f settings tokenizer id requests ≡ some b
      → IsPrompted b (map member_of (zip_prompts requests inputs))
  from_pb-IsPrompted id requests inputs b e size positive h =
      let (processors, p) = from_pb-batch_of f settings tokenizer id requests inputs b e h in
      subst (λ c. IsPrompted c (map member_of (zip_prompts requests inputs))) p
        (batch_of-IsPrompted id requests inputs processors size positive)
