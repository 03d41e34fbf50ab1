-- ===== src/Flash/Life.antt =====
-- The life of the batches of a server: made from requests, stepped, filtered, joined and dropped,
-- in any order and with any of them at a time.
pub mod Filter
pub mod Concatenate
pub mod Prefill
pub mod Server
use lorax.Prelude.{ℕ, ◌≡◌, Bool, false, Option, none, some, List, [], ◌∷◌, ◌++◌, map, length}
use lorax.Tokens.Chooser.{FloatTests}
use lorax.Flash.{FlashCausalLmBatch}
use lorax.Flash.Filter.{filter_batch}
use lorax.Flash.Concatenate.{concatenate}
use lorax.Flash.Prefill.{PbRequest, Tokenizer, Settings, zip_prompts, tokenized, from_pb}
use lorax.Flash.Prefill.Ends.{AllPositive}
use lorax.Flash.Generate.{Engine, Generation}
use lorax.Flash.Generate.Step.{generate_token}

-- The batches that are held. Prefill makes one from requests whose prompts are not empty, and steps
-- it; Decode takes some, joins them if they are more than one, and steps; FilterBatch takes one.
pub data Live {F Schema : Type 0} (f : FloatTests F) (settings : Settings)
    (tokenizer : Tokenizer F Schema) (e : Engine F Schema)
    : List (FlashCausalLmBatch F Schema) → Type 0 where
  idle : Live f settings tokenizer e []
  prefilled :
      {bs : List (FlashCausalLmBatch F Schema)} (id : ℕ) (requests : List (PbRequest F))
      (inputs : List (List ℕ)) (b b' : FlashCausalLmBatch F Schema) (gens : List Generation)
      → Live f settings tokenizer e bs
      → tokenized f settings tokenizer requests ≡ some inputs
      → length inputs ≡ length requests
      → AllPositive (map (λ p. length p.tokens) (zip_prompts requests inputs))
      → from_pb f settings tokenizer id requests ≡ some b
      → generate_token e false b ≡ some (gens, some b')
      → Live f settings tokenizer e (b' ∷ bs)
  decoded :
      {bs : List (FlashCausalLmBatch F Schema)} (b b' : FlashCausalLmBatch F Schema)
      (gens : List Generation)
      → Live f settings tokenizer e (b ∷ bs)
      → generate_token e false b ≡ some (gens, some b')
      → Live f settings tokenizer e (b' ∷ bs)
  filtered :
      {bs : List (FlashCausalLmBatch F Schema)} (b c : FlashCausalLmBatch F Schema)
      (request_ids : List ℕ)
      → Live f settings tokenizer e (b ∷ bs)
      → filter_batch f b request_ids ≡ some c
      → Live f settings tokenizer e (c ∷ bs)
  joined :
      (bs rest : List (FlashCausalLmBatch F Schema)) (c : FlashCausalLmBatch F Schema)
      → Live f settings tokenizer e (bs ++ rest)
      → concatenate f bs ≡ some c
      → Live f settings tokenizer e (c ∷ rest)
  dropped :
      {bs : List (FlashCausalLmBatch F Schema)} (b : FlashCausalLmBatch F Schema)
      → Live f settings tokenizer e (b ∷ bs)
      → Live f settings tokenizer e bs
  chosen :
      (before behind : List (FlashCausalLmBatch F Schema)) (b : FlashCausalLmBatch F Schema)
      → Live f settings tokenizer e (before ++ b ∷ behind)
      → Live f settings tokenizer e (b ∷ before ++ behind)
