-- ===== src/Ner/Cases.antt =====
-- The ways that the loop of `format_ner_output` takes at a token.
use lorax.Prelude.{
  ℕ, ◌+◌, ◌≡◌, sym, subst, arith, true, false, Option, none, some, List, ◌∷◌, Option-cases,
  Bool-cases, inl, inr,
}
use lorax.Tokens.Stopping.{text_eq}
use lorax.Ner.{Entity, Classified, get_tag, outside, emit, begin, continue, begins, entities}

module _ {F : Type 0} where
  -- The four ways that the loop takes at a token.
  pub entities-cases :
      (decoded : ℕ → ℕ) (C : List (Entity F) → Type 0) (j : ℕ) (c : Classified F)
      (rest : List (Classified F)) (current : Option (Entity F))
      → (outside c.token_class ≡ true → C (emit current (entities decoded (j + 1) rest none)))
      → (outside c.token_class ≡ false
          → begins decoded (get_tag c.token_class) current ≡ true
          → C (
              emit current (
                entities decoded
                  (j + 1)
                  rest
                  (some (begin decoded j (get_tag c.token_class).1 c)))))
      → (current ≡ none → outside c.token_class ≡ false → C (entities decoded (j + 1) rest none))
      → ((e : Entity F)
          → current ≡ some e
          → outside c.token_class ≡ false
          → text_eq (get_tag c.token_class).1 e.entity ≡ true
          → C (entities decoded (j + 1) rest (some (continue decoded j c e))))
      → C (entities decoded j (c ∷ rest) current)
  unfolding entities begins
  entities-cases decoded C j c rest current out new skip more =
      elim (Bool-cases (outside c.token_class)) [
        | inl o ↦ subst C (sym (entities-out o)) (out o)
        | inr o ↦ elim (Bool-cases (begins decoded (get_tag c.token_class) current)) [
          | inl b ↦ subst C (sym (entities-new o b)) (new o b)
          | inr b ↦ elim (Option-cases current) [
            | inl n ↦ subst C (sym (entities-skip o b n)) (skip n o)
            | inr (e, n) ↦ subst C (sym (entities-more e o b n)) (more e n o (same e b n))
          ]
        ]
      ]
    where
      entities-out :
          outside c.token_class ≡ true
          → entities decoded j (c ∷ rest) current
            ≡ emit current (entities decoded (j + 1) rest none)
      entities-out o = ground (arith, o)

      entities-new :
          outside c.token_class ≡ false
          → begins decoded (get_tag c.token_class) current ≡ true
          → entities decoded j (c ∷ rest) current
            ≡ emit current
                (entities decoded (j + 1) rest (some (begin decoded j (get_tag c.token_class).1 c)))
      entities-new o b = ground (arith, o, b)

      entities-skip :
          outside c.token_class ≡ false
          → begins decoded (get_tag c.token_class) current ≡ false
          → current ≡ none
          → entities decoded j (c ∷ rest) current ≡ entities decoded (j + 1) rest none
      entities-skip o b n = ground (arith, o, b, n)

      entities-more :
          (e : Entity F)
          → outside c.token_class ≡ false
          → begins decoded (get_tag c.token_class) current ≡ false
          → current ≡ some e
          → entities decoded j (c ∷ rest) current
            ≡ entities decoded (j + 1) rest (some (continue decoded j c e))
      entities-more e o b n = ground (arith, o, b, n)

      same :
          (e : Entity F)
          → begins decoded (get_tag c.token_class) current ≡ false
          → current ≡ some e
          → text_eq (get_tag c.token_class).1 e.entity ≡ true
      same e b n = ground (arith, b, n)
