-- ===== src/Ner/Starts.antt =====
-- Entities start at a class "B-..." only.
use lorax.Prelude.{ℕ, ◌+◌, ◌≡◌, refl, arith, false, none, List, [], ◌∷◌, take, drop, init}
use lorax.Ner.{get_tag, begins, entities, zip_classified, format_ner_output, emit}
use lorax.Ner.Cases.{entities-cases}

-- No class is "B-" and a tag.
unfoldable pub NoneBegins : List (List ℕ) → Type 0
NoneBegins [] = Unit
NoneBegins (c ∷ classes) = ((get_tag c).0 ≡ false) × NoneBegins classes

NoneBegins-drop : (classes : List (List ℕ)) → NoneBegins classes → NoneBegins (drop 1 classes)
unfolding NoneBegins
NoneBegins-drop [] h = tt
NoneBegins-drop (c ∷ classes) (_, h) = h

NoneBegins-init : (classes : List (List ℕ)) → NoneBegins classes → NoneBegins (init classes)
unfolding NoneBegins
NoneBegins-init [] h = tt
NoneBegins-init (c ∷ []) h = tt
NoneBegins-init (c ∷ d ∷ classes) (b, h) = (b, NoneBegins-init (d ∷ classes) h)

module _ {F : Type 0} (decoded : ℕ → ℕ) where
  entities-none :
      (j : ℕ) (ts cs : List (List ℕ)) (ss : List F)
      → NoneBegins cs
      → entities decoded j (zip_classified ts cs ss) none ≡ []
  unfolding NoneBegins zip_classified begins emit entities
  entities-none j [] cs ss h = refl
  entities-none j (t ∷ ts) [] ss h = refl
  entities-none j (t ∷ ts) (c ∷ cs) [] h = refl
  entities-none j (t ∷ ts) (c ∷ cs) (s ∷ ss) (b, h) =
      let rest = entities-none (j + 1) ts cs ss h in
      entities-cases decoded (λ es. es ≡ []) j (record { token = t; token_class = c; score = s })
        (zip_classified ts cs ss) none (λ o. rest) (λ o b'. ground (arith, b, b')) (λ n o. rest)
        (λ e n. ground (arith, n))

-- Where no class begins with "B-", `format_ner_output` returns no entity, whatever tags the
-- classes have.
pub format_ner_output-NoneBegins :
    {F : Type 0} (convert_ids_to_tokens : List ℕ → List (List ℕ)) (decode_length : List ℕ → ℕ)
    (predicted_token_class : List (List ℕ)) (scores : List F) (input_ids : List ℕ)
    → NoneBegins predicted_token_class
    → format_ner_output convert_ids_to_tokens decode_length predicted_token_class scores input_ids
      ≡ []
unfolding format_ner_output
format_ner_output-NoneBegins convert_ids_to_tokens decode_length classes scores input_ids h =
    entities-none (λ i. decode_length (take i (init (drop 1 input_ids)))) 0
      (init (drop 1 (convert_ids_to_tokens input_ids))) (init (drop 1 classes))
      (init (drop 1 scores)) (NoneBegins-init (drop 1 classes) (NoneBegins-drop classes h))
