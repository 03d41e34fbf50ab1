-- ===== src/Tokens/Chooser/Laws.antt =====
-- What a request gets does not depend on its neighbours, and a filter is a fresh construction.
use lorax.Prelude.{
  ℕ, zero, suc, ◌≡◌, refl, ap, ◌∙◌, Bool, false, ◌||◌, some, List, [], ◌∷◌, map, gather, get_elem?,
  ◌>>=◌, arith, Bool-cases, Option-cases, inl, inr,
}
use lorax.Tokens.Chooser.{
  FloatTests, any, or_sample, Warper, temperature_warper, top_k_warper, top_p_warper,
  typical_warper, nonzero, add_warper, warms, warpers_of, RequestParameters, from_pb,
}

module _ {R A : Type 0} (g : R → A) where
  any-map : (p : A → Bool) (rows : List R) → any p (map g rows) ≡ any (λ r. p (g r)) rows
  any-map p [] = refl
  any-map p (r ∷ rows) = ap (λ (b : Bool). p (g r) || b) (any-map p rows)

  get_elem?-of-map :
      (rows : List R) (i : ℕ) → get_elem? (map g rows) i ≡ (get_elem? rows i >>= λ r. some (g r))
  get_elem?-of-map [] i = refl
  get_elem?-of-map (r ∷ rows) zero = refl
  get_elem?-of-map (r ∷ rows) (suc i) = get_elem?-of-map rows i

  pub gather-map :
      (rows kept : List R) (indices : List ℕ)
      → gather rows indices ≡ some kept
      → gather (map g rows) indices ≡ some (map g kept)
  unfolding gather
  gather-map rows kept [] h = ground arith
  gather-map rows kept (i ∷ indices) h = elim (Option-cases (get_elem? rows i)) [
    | inl e ↦ ground arith
    | inr (r, e) ↦ elim (Option-cases (gather rows indices)) [
      | inl e' ↦ ground arith
      | inr (rest, e') ↦ ground (arith, get_elem?-of-map rows i, gather-map rows rest indices e')
    ]
  ]

  or_sample-map :
      (p : A → Bool) (h : R → Bool) (rows : List R)
      → or_sample p (map g rows) (map h rows) ≡ map (λ r. h r || p (g r)) rows
  or_sample-map p h [] = refl
  or_sample-map p h (r ∷ rows) =
      ap (λ (bs : List Bool). (h r || p (g r)) ∷ bs) (or_sample-map p h rows)

  unneeded :
      (p : A → Bool) (h : R → Bool) (rows : List R)
      → any p (map g rows) ≡ false
      → map h rows ≡ map (λ r. h r || p (g r)) rows
  unneeded p h [] e = refl
  unneeded p h (r ∷ rows) e = ground (arith, unneeded p h rows)

  -- A test that no row passes adds to no flag, so the `any` before it makes no difference.
  add_warper-flags :
      {F : Type 0} (p : A → Bool) (make : List A → Warper F) (h : R → Bool) (rows : List R)
      (ws : List (Warper F) × List Bool)
      → ws.1 ≡ map h rows
      → (add_warper p make (map g rows) ws).1 ≡ map (λ r. h r || p (g r)) rows
  add_warper-flags p make h rows (warpers, flags) e = elim (Bool-cases (any p (map g rows))) [
    | inl some_row ↦ rw (some_row, e) (or_sample-map p h rows)
    | inr no_row ↦ rw no_row (e ∙ unneeded p h rows no_row)
  ]

module _ {F : Type 0} (f : FloatTests F) where
  -- Whether a request is sampled, from its own parameters.
  abbrev pub samples : RequestParameters F → Bool
  samples r =
      (((r.do_sample || warms f r.temperature) || nonzero r.top_k) || f.below_one r.top_p)
      || f.below_one r.typical_p

  -- The sample flag of each request of a batch is set from its own parameters alone: by do_sample, or
  -- by a temperature that is neither 0 nor 1, a top_k that is not 0, or a top_p or typical_p below
  -- 1. That the code passes over a test that no request of the batch needs makes no difference.
  pub warpers_of-samples :
      (pb : List (RequestParameters F)) → (warpers_of f (from_pb pb)).1 ≡ map samples pb
  unfolding warpers_of from_pb
  warpers_of-samples pb =
      add_warper-flags (λ r. r.typical_p) f.below_one typical_warper _ pb _
        (add_warper-flags (λ r. r.top_p) f.below_one top_p_warper _ pb _
          (add_warper-flags (λ r. r.top_k) nonzero top_k_warper _ pb _
            (add_warper-flags (λ r. r.temperature) (warms f) temperature_warper (λ r. r.do_sample)
              pb ([], map (λ r. r.do_sample) pb) refl)))
