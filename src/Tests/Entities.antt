-- ===== src/Tests/Entities.antt =====
-- The classes of the tokens of a text, of which the first and the last are markers.
use lorax.Prelude.{ℕ, ◌≡◌, refl, List, [], ◌∷◌, map, length, take, drop, init}
use lorax.Tokens.Stopping.{text_eq}
use lorax.Ner.{
  format_ner_output, entities, get_tag, outside, zip_classified, begin, continue, begins, emit,
  replace_hashes,
}
use lorax.Ner.Runs.{AreRuns, inner_items, format_ner_output-AreRuns}
use lorax.Ner.Starts.{NoneBegins, format_ner_output-NoneBegins}

-- Each token is one letter, and a text has a letter for each of its tokens.
abbrev letters : List ℕ → List (List ℕ)
letters ids = map (λ id. id ∷ []) ids

abbrev five_scores : List ℕ
five_scores = 1 ∷ 2 ∷ 3 ∷ 4 ∷ 5 ∷ []

abbrev five_ids : List ℕ
five_ids = 97 ∷ 98 ∷ 99 ∷ 100 ∷ 101 ∷ []

-- The classes "O", "B-P", "I-P", "I-L", "O".
abbrev five_classes : List (List ℕ)
five_classes =
    (79 ∷ []) ∷ (66 ∷ 45 ∷ 80 ∷ []) ∷ (73 ∷ 45 ∷ 80 ∷ []) ∷ (73 ∷ 45 ∷ 76 ∷ []) ∷ (79 ∷ []) ∷ []

five_classes_entities :
    format_ner_output letters length five_classes five_scores five_ids
    ≡ record { entity = 80 ∷ []; score = 2; index = 0; word = 98 ∷ 99 ∷ []; start = 0; end = 2 }
      ∷ record { entity = 76 ∷ []; score = 4; index = 2; word = 100 ∷ []; start = 2; end = 3 }
      ∷ []
unfolding format_ner_output entities get_tag outside zip_classified begin continue begins emit
    replace_hashes text_eq
five_classes_entities = refl

format_ner_output-AreRuns_example :
    AreRuns
      (λ i. length (take i (init (drop 1 five_ids))))
      (inner_items letters five_classes five_scores five_ids)
      0
      (format_ner_output letters length five_classes five_scores five_ids)
format_ner_output-AreRuns_example =
    format_ner_output-AreRuns letters length five_classes five_scores five_ids

-- The classes "O", "P", "P", "O", which have no prefix.
abbrev plain_classes : List (List ℕ)
plain_classes = (79 ∷ []) ∷ (80 ∷ []) ∷ (80 ∷ []) ∷ (79 ∷ []) ∷ []

plain_classes-NoneBegins : NoneBegins plain_classes
unfolding NoneBegins get_tag text_eq
plain_classes-NoneBegins = (refl, (refl, (refl, (refl, tt))))

format_ner_output-NoneBegins_example :
    format_ner_output letters length plain_classes (take 4 five_scores) (take 4 five_ids) ≡ []
format_ner_output-NoneBegins_example =
    format_ner_output-NoneBegins letters length plain_classes (take 4 five_scores) (take 4 five_ids)
      plain_classes-NoneBegins
