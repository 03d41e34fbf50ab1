-- ===== src/Ner/Runs.antt =====
-- The entities are runs of tokens of one tag.
use lorax.Prelude.{
  ℕ, suc, ◌+◌, ◌<◌, ◌≤◌, ◌≡◌, refl, subst, ap, ◌∙◌, arith, true, false, Option, none, some, List,
  [], ◌∷◌, ltb, take, drop, init, Bool-cases, inl, inr, get_elem?,
}
use lorax.Tokens.Stopping.Laws.{text_eq→eq}
use lorax.Ner.Cases.{entities-cases}
use lorax.Ner.{
  Entity, Classified, get_tag, outside, emit, begin, continue, entities, zip_classified,
  format_ner_output,
}

-- The tag of a class, where it is not "O".
unfoldable pub tag_of : List ℕ → Option (List ℕ)
tag_of token_class = elim (outside token_class) [
  | true ↦ none
  | false ↦ some (get_tag token_class).1
]

module _ {F : Type 0} where
  -- Tokens from `i` up to but not with `j` have the tag.
  unfoldable pub HasTag : List (Classified F) → List ℕ → ℕ → ℕ → Type 0
  HasTag items tag i j =
      (k : ℕ)
      → i ≤ k
      → k < j
      → (c : Classified F) × (get_elem? items k ≡ some c) × (tag_of c.token_class ≡ some tag)

  -- The entities lie one after another from token `i` on. Each is a run of tokens of its tag, and
  -- its text is from where the text before its first token ends to where that of its last ends.
  pub data AreRuns (decoded : ℕ → ℕ) (items : List (Classified F))
      : ℕ → List (Entity F) → Type 0 where
    nil : {i : ℕ} → AreRuns decoded items i []
    cons :
        {i : ℕ} (e : Entity F) {es : List (Entity F)} (j : ℕ)
        → i ≤ e.index
        → e.index < j
        → e.start ≡ decoded e.index
        → e.end ≡ decoded j
        → HasTag items e.entity e.index j
        → AreRuns decoded items j es
        → AreRuns decoded items i (e ∷ es)

  module _ (decoded : ℕ → ℕ) where
    -- The entity that is open before token `j`.
    IsOpen : List (Classified F) → ℕ → ℕ → Option (Entity F) → Type 0
    unfolding HasTag
    IsOpen items i j none = i ≤ j
    IsOpen items i j (some e) =
        (i ≤ e.index)
        × (e.index < j)
        × (e.start ≡ decoded e.index)
        × (e.end ≡ decoded j)
        × HasTag items e.entity e.index j

    emit-AreRuns :
        (items : List (Classified F)) (i j : ℕ) (current : Option (Entity F)) (es : List (Entity F))
        → IsOpen items i j current
        → ((k : ℕ) → k ≤ j → AreRuns decoded items k es)
        → AreRuns decoded items i (emit current es)
    unfolding emit IsOpen
    emit-AreRuns items i j none es h rest = rest i h
    emit-AreRuns items i j (some e) es (lo, hi, s, t, tags) rest =
        cons e j lo hi s t tags (rest j (omega arith))

    HasTag-one :
        (items : List (Classified F)) (i : ℕ) (c : Classified F) (tag : List ℕ)
        → get_elem? items i ≡ some c
        → tag_of c.token_class ≡ some tag
        → HasTag items tag i (i + 1)
    unfolding HasTag
    HasTag-one items i c tag h e k lo hi = (c, ap (get_elem? items) (omega (arith, lo, hi)) ∙ h, e)

    HasTag-more :
        (items : List (Classified F)) (i j : ℕ) (c : Classified F) (tag : List ℕ)
        → HasTag items tag i j
        → get_elem? items j ≡ some c
        → tag_of c.token_class ≡ some tag
        → HasTag items tag i (j + 1)
    unfolding HasTag
    HasTag-more items i j c tag tags h e k lo hi = elim (Bool-cases (ltb k j)) [
      | inl p ↦ tags k lo (ground arith)
      | inr p ↦ (c, ap (get_elem? items) (ground arith) ∙ h, e)
    ]

    -- Token `j` of the tag begins a run; where it begins none, it goes on with the one open.
    IsOpen-begin :
        (items : List (Classified F)) (j : ℕ) (c : Classified F) (tag : List ℕ) (i : ℕ)
        → i ≤ j
        → get_elem? items j ≡ some c
        → tag_of c.token_class ≡ some tag
        → IsOpen items i (j + 1) (some (begin decoded j tag c))
    unfolding IsOpen begin
    IsOpen-begin items j c tag i lo h e =
        (lo, omega arith, refl, refl, HasTag-one items j c tag h e)

    IsOpen-continue :
        (items : List (Classified F)) (j : ℕ) (c : Classified F) (i : ℕ) (e : Entity F)
        → IsOpen items i j (some e)
        → get_elem? items j ≡ some c
        → tag_of c.token_class ≡ some e.entity
        → IsOpen items i (j + 1) (some (continue decoded j c e))
    unfolding IsOpen continue
    IsOpen-continue items j c i e (lo, hi, s, t, tags) h g =
        (lo, omega arith, s, refl, HasTag-more items e.index j c e.entity tags h g)

    entities-AreRuns_from :
        (items : List (Classified F)) (i j : ℕ) (rest : List (Classified F))
        (current : Option (Entity F))
        → ((k : ℕ) → get_elem? items (j + k) ≡ get_elem? rest k)
        → IsOpen items i j current
        → AreRuns decoded items i (entities decoded j rest current)
    unfolding tag_of IsOpen entities
    entities-AreRuns_from items i j [] current at h =
        emit-AreRuns items i j current [] h (λ k h. nil)
    entities-AreRuns_from items i j (c ∷ rest) current at h =
        entities-cases decoded (AreRuns decoded items i) j c rest current
          (λ o.
            emit-AreRuns items i j current (entities decoded (j + 1) rest none) h
              (λ k l. entities-AreRuns_from items k (j + 1) rest none after (omega (arith, l))))
          (λ o b.
            emit-AreRuns items i j current
              (entities decoded (j + 1) rest (some (begin decoded j (get_tag c.token_class).1 c))) h
              (λ k l.
                entities-AreRuns_from items k (j + 1) rest
                  (some (begin decoded j (get_tag c.token_class).1 c)) after
                  (IsOpen-begin items j c (get_tag c.token_class).1 k l here (tagged o))))
          (λ n o. entities-AreRuns_from items i (j + 1) rest none after (skipped n))
          (λ e n o same.
            entities-AreRuns_from items i (j + 1) rest (some (continue decoded j c e)) after (
              IsOpen-continue items j c i e (subst (IsOpen items i j) n h) here
                (tagged o ∙ ap some (text_eq→eq (get_tag c.token_class).1 e.entity same))))
      where
        skipped : current ≡ none → IsOpen items i (j + 1) none
        skipped n = let lo : i ≤ j = subst (IsOpen items i j) n h in omega (arith, lo)

        here : get_elem? items j ≡ some c
        here = ap (get_elem? items) (omega arith) ∙ at 0

        tagged :
            outside c.token_class ≡ false → tag_of c.token_class ≡ some (get_tag c.token_class).1
        tagged o = ground (arith, o)

        after : (k : ℕ) → get_elem? items (j + 1 + k) ≡ get_elem? rest k
        after k = ap (get_elem? items) (omega arith) ∙ at (suc k)

  -- From no entity, the loop over all tokens gives entities that are runs of one tag in order.
  pub entities-AreRuns :
      (decoded : ℕ → ℕ) (items : List (Classified F))
      → AreRuns decoded items 0 (entities decoded 0 items none)
  unfolding IsOpen
  entities-AreRuns decoded items =
      entities-AreRuns_from decoded items 0 0 items none (λ k. ap (get_elem? items) (omega arith))
        (omega arith)

  -- The tokens that `format_ner_output` reads, with their classes and scores.
  unfoldable pub inner_items :
      (List ℕ → List (List ℕ)) → List (List ℕ) → List F → List ℕ → List (Classified F)
  inner_items convert_ids_to_tokens predicted_token_class scores input_ids =
      zip_classified (init (drop 1 (convert_ids_to_tokens input_ids)))
        (init (drop 1 predicted_token_class)) (init (drop 1 scores))

  -- The entities that `format_ner_output` returns follow one another. Each is a run of tokens of
  -- one class's tag, between the first and the last token of the text, and its bounds are the
  -- lengths of the decoded texts before the run and up to its end.
  pub format_ner_output-AreRuns :
      (convert_ids_to_tokens : List ℕ → List (List ℕ)) (decode_length : List ℕ → ℕ)
      (predicted_token_class : List (List ℕ)) (scores : List F) (input_ids : List ℕ)
      → AreRuns
          (λ i. decode_length (take i (init (drop 1 input_ids))))
          (inner_items convert_ids_to_tokens predicted_token_class scores input_ids)
          0
          (format_ner_output convert_ids_to_tokens decode_length predicted_token_class scores
            input_ids)
  unfolding format_ner_output inner_items
  format_ner_output-AreRuns convert_ids_to_tokens decode_length classes scores input_ids =
      entities-AreRuns (λ i. decode_length (take i (init (drop 1 input_ids))))
        (inner_items convert_ids_to_tokens classes scores input_ids)
