-- ===== src/Tokens/Speculation/Decoding.antt =====
-- Speculation against decoding one token at a time.
use lorax.Prelude.{
  ℕ, zero, suc, ◌+◌, ◌≡◌, refl, ap, ap₂, ◌∙◌, map, some, arith, List, [], ◌∷◌, ◌++◌, ◌==◌, ==_iff,
  length, Bool-cases, inl, inr,
}
use lorax.Tokens.Speculation.Rows.{
  agreeing, kept_of, Row, spec_of, next_ids_of, kept_rows, counts, IsBlock, speculative_accept-rows,
}
use lorax.Tokens.Speculation.{speculative_accept}

-- `choose` is the token that the model and the chooser give after a context.
module _ (choose : List ℕ → ℕ) where
  -- One token at a time: the next `n` tokens after `context`.
  abbrev pub decode : List ℕ → ℕ → List ℕ
  decode context zero = []
  decode context (suc n) = choose context ∷ decode (context ++ choose context ∷ []) n

  -- The choices of one forward pass behind the first: one after each speculated token.
  abbrev pub after : List ℕ → List ℕ → List ℕ
  after context [] = []
  after context (s ∷ spec) = choose (context ++ s ∷ []) ∷ after (context ++ s ∷ []) spec

  -- One forward pass over a context and the speculated tokens: a choice after the context and
  -- after each of them.
  abbrev pub forward : List ℕ → List ℕ → List ℕ
  forward context spec = choose context ∷ after context spec

  -- The tokens kept of a row are those that decoding one at a time gives.
  pub kept_of-decode :
      (context spec : List ℕ)
      → kept_of (forward context spec) spec
        ≡ decode context (1 + agreeing (forward context spec) spec)
  unfolding agreeing
  kept_of-decode context [] = refl
  kept_of-decode context (s ∷ spec) = elim (Bool-cases (choose context == s)) [
    | inl e ↦
        rw e (ground (arith, ==_iff (choose context) s, kept_of-decode (context ++ s ∷ []) spec))
    | inr e ↦ rw e
  ]

  abbrev pub rows_of : List (List ℕ × List ℕ) → List Row
  rows_of [] = []
  rows_of ((context, spec) ∷ requests) =
      (choose context, after context spec, spec) ∷ rows_of requests

  -- Requests whose speculated tokens are `width` each.
  abbrev pub HasWidth : ℕ → List (List ℕ × List ℕ) → Type 0
  HasWidth width [] = Unit
  HasWidth width ((context, spec) ∷ requests) = (length spec ≡ width) × HasWidth width requests

  -- How many tokens each request gains: one, and one for each speculated token before the first
  -- that is not what decoding would choose.
  abbrev pub gains : List (List ℕ × List ℕ) → List ℕ
  gains [] = []
  gains ((context, spec) ∷ requests) = (1 + agreeing (forward context spec) spec) ∷ gains requests

  abbrev pub decoded : List (List ℕ × List ℕ) → List ℕ
  decoded [] = []
  decoded ((context, spec) ∷ requests) =
      decode context (1 + agreeing (forward context spec) spec) ++ decoded requests

  length-after : (context spec : List ℕ) → length (after context spec) ≡ length spec
  length-after context [] = refl
  length-after context (s ∷ spec) = ap suc (length-after (context ++ s ∷ []) spec)

  rows_of-IsBlock :
      (width : ℕ) (requests : List (List ℕ × List ℕ))
      → HasWidth width requests
      → IsBlock width (rows_of requests)
  rows_of-IsBlock width [] h = tt
  rows_of-IsBlock width ((context, spec) ∷ requests) h =
      (length-after context spec ∙ h.0, h.0, rows_of-IsBlock width requests h.1)

  kept_rows-decoded :
      (requests : List (List ℕ × List ℕ)) → kept_rows (rows_of requests) ≡ decoded requests
  kept_rows-decoded [] = refl
  kept_rows-decoded ((context, spec) ∷ requests) =
      ap₂ (λ (xs ys : List ℕ). xs ++ ys) (kept_of-decode context spec) (kept_rows-decoded requests)

  counts-gains : (requests : List (List ℕ × List ℕ)) → counts (rows_of requests) ≡ gains requests
  counts-gains [] = refl
  counts-gains ((context, spec) ∷ requests) =
      ap₂ (λ (n : ℕ) (ns : List ℕ). n ∷ ns) refl (counts-gains requests)

  -- Speculation changes no output: if the verified ids are the model's choices after the context
  -- and after each speculated token, then what the step keeps for each request is what decoding
  -- one token at a time gives, for as many tokens as the reported counts.
  pub speculative_accept-decode :
      (width : ℕ) (requests : List (List ℕ × List ℕ))
      → HasWidth width requests
      → speculative_accept
          (1 + width)
          (next_ids_of (rows_of requests))
          (map spec_of (rows_of requests))
        ≡ some (decoded requests, gains requests)
  speculative_accept-decode width requests h =
      speculative_accept-rows width (rows_of requests) (rows_of-IsBlock width requests h)
      ∙ ap₂ (λ (xs ys : List ℕ). some (xs, ys)) (kept_rows-decoded requests) (counts-gains requests)
