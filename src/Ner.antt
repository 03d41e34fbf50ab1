-- ===== src/Ner.antt =====
-- server/lorax_server/utils/token_classification.py: the entities of a text from the classes that
-- a model predicts for its tokens.
pub mod Cases
pub mod Runs
pub mod Starts
use lorax.Tokens.Stopping.{text_eq}
use lorax.Prelude.{
  ℕ, ◌+◌, Bool, true, false, ◌&&◌, ◌||◌, not, Option, none, some, List, [], ◌∷◌, ◌++◌, ◌==◌,
  if◌then◌else◌, take, drop, init,
}

-- `_get_tag`: whether the name begins with "B-", and the tag.
unfoldable pub get_tag : List ℕ → Bool × List ℕ
unfolding text_eq
get_tag entity_name =
    if text_eq (take 2 entity_name) (66 ∷ 45 ∷ [])
    then (true, drop 2 entity_name)
    else if text_eq (take 2 entity_name) (73 ∷ 45 ∷ [])
    then (false, drop 2 entity_name)
    else (false, entity_name)

-- `token.replace("##", "")`; the first argument is whether the code point before is a "#" that is
-- not removed with the one before it.
unfoldable pub replace_hashes : Bool → List ℕ → List ℕ
replace_hashes false [] = []
replace_hashes true [] = 35 ∷ []
replace_hashes false (c ∷ cs) = elim (c == 35) [
  | true ↦ replace_hashes true cs
  | false ↦ c ∷ replace_hashes false cs
]
replace_hashes true (c ∷ cs) = elim (c == 35) [
  | true ↦ replace_hashes false cs
  | false ↦ 35 ∷ c ∷ replace_hashes false cs
]

pub record Entity (F : Type 0) : Type 0 where
  pub entity : List ℕ
  pub score : F
  pub index : ℕ
  pub word : List ℕ
  pub start : ℕ
  pub end : ℕ

-- A token with its class and the score.
pub record Classified (F : Type 0) : Type 0 where
  pub token : List ℕ
  pub token_class : List ℕ
  pub score : F

unfoldable pub zip_classified :
    {F : Type 0} → List (List ℕ) → List (List ℕ) → List F → List (Classified F)
zip_classified (t ∷ ts) (c ∷ cs) (s ∷ ss) =
    record { token = t; token_class = c; score = s } ∷ zip_classified ts cs ss
zip_classified [] cs ss = []
zip_classified (t ∷ ts) [] ss = []
zip_classified (t ∷ ts) (c ∷ cs) [] = []

unfoldable pub outside : List ℕ → Bool
unfolding text_eq
outside token_class = text_eq token_class (79 ∷ [])

-- `if current_entity: ner_results.append(current_entity)`
unfoldable pub emit : {F : Type 0} → Option (Entity F) → List (Entity F) → List (Entity F)
emit none rest = rest
emit (some e) rest = e ∷ rest

module _ {F : Type 0} (decoded : ℕ → ℕ) where
  -- The entity that token `i` begins; `decoded i` is the length of the text of the tokens before.
  unfoldable pub begin : ℕ → List ℕ → Classified F → Entity F
  begin i tag c = record {
    entity = tag;
    score = c.score;
    index = i;
    word = c.token;
    start = decoded i;
    end = decoded (i + 1);
  }

  unfoldable pub continue : ℕ → Classified F → Entity F → Entity F
  unfolding replace_hashes
  continue i c e = record e { word = e.word ++ replace_hashes false c.token; end = decoded (i + 1) }

  -- `bi == "B" or (current_entity and tag != current_entity["entity"])`
  unfoldable pub begins : Bool × List ℕ → Option (Entity F) → Bool
  unfolding text_eq
  begins (b, tag) none = b
  begins (b, tag) (some e) = b || not (text_eq tag e.entity)

  -- The loop from token `i` on, with the entities that it appends.
  unfoldable pub entities : ℕ → List (Classified F) → Option (Entity F) → List (Entity F)
  unfolding outside get_tag emit begin continue begins
  entities i [] current = emit current []
  entities i (c ∷ rest) current = elim (outside c.token_class) [
    | true ↦ emit current (entities (i + 1) rest none)
    | false ↦
        let (b, tag) = get_tag c.token_class in
        elim (begins (b, tag) current) [
          | true ↦ emit current (entities (i + 1) rest (some (begin i tag c)))
          | false ↦ elim current [
            | none ↦ entities (i + 1) rest none
            | some e ↦ entities (i + 1) rest (some (continue i c e))
          ]
        ]
  ]

-- `decode_length` is the length of the text that the tokenizer decodes.
unfoldable pub format_ner_output :
    {F : Type 0}
    → (List ℕ → List (List ℕ))
    → (List ℕ → ℕ)
    → List (List ℕ)
    → List F
    → List ℕ
    → List (Entity F)
unfolding zip_classified entities
format_ner_output convert_ids_to_tokens decode_length predicted_token_class scores input_ids =
    entities (λ i. decode_length (take i (init (drop 1 input_ids)))) 0
      (zip_classified (init (drop 1 (convert_ids_to_tokens input_ids)))
        (init (drop 1 predicted_token_class)) (init (drop 1 scores)))
      none
