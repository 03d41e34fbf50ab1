-- ===== src/Tokens/Chooser/Filtered.antt =====
-- `filter` of a chooser against the construction of a chooser for the kept requests.
use lorax.Prelude.{
  ℕ, ◌≡◌, refl, false, Option, none, some, List, [], ◌∷◌, map, if◌then◌else◌, gather, ◌>>=◌, arith,
  Bool-cases, inl, inr,
}
use lorax.Tokens.Chooser.{
  FloatTests, any, true_indices, new_sampling, Choice, heterogeneous, greedy, temperature_warper,
  top_k_warper, top_p_warper, typical_warper, is_some, nonzero, filter_keys, nonempty,
  filter_choice, warms, not_one, warpers_of, filter_warpers, new, filter, RequestParameters,
  from_pb,
}
use lorax.Tokens.Chooser.Laws.{samples, warpers_of-samples, gather-map}
use lorax.Tokens.Chooser.Filter.{
  any-gather, filter_rows-new, filter_warpers-add, filter_sampling-new, filter_keys-new,
  nonempty-true_indices,
}

module _ {F : Type 0} (f : FloatTests F) where
  -- A request whose temperature is not 0, and whose typical_p is at most 1.
  abbrev pub IsOrdinary : RequestParameters F → Type 0
  IsOrdinary r =
      (f.is_zero r.temperature ≡ false) × (not_one f r.typical_p ≡ f.below_one r.typical_p)

  abbrev pub AllOrdinary : List (RequestParameters F) → Type 0
  AllOrdinary [] = Unit
  AllOrdinary (r ∷ pb) = IsOrdinary r × AllOrdinary pb

  temperatures_agree :
      (pb : List (RequestParameters F))
      → AllOrdinary pb
      → any (not_one f) (map (λ r. r.temperature) pb) ≡ any (warms f) (map (λ r. r.temperature) pb)
  temperatures_agree [] h = refl
  temperatures_agree (r ∷ pb) h = ground (arith, h.0.0, temperatures_agree pb h.1)

  typicals_agree :
      (pb : List (RequestParameters F))
      → AllOrdinary pb
      → any (not_one f) (map (λ r. r.typical_p) pb) ≡ any f.below_one (map (λ r. r.typical_p) pb)
  typicals_agree [] h = refl
  typicals_agree (r ∷ pb) h = ground (arith, h.0.1, typicals_agree pb h.1)

  choice_of : List (RequestParameters F) → Choice
  choice_of rs =
      if any (λ flag. flag) (map (samples f) rs)
      then heterogeneous (new_sampling 0 (map (samples f) rs) (map (λ r. r.seed) rs))
      else greedy

  watermark_of : List (RequestParameters F) → Option (List ℕ)
  watermark_of rs =
      let flags = map (λ r. r.watermark) rs in
      if any (λ flag. flag) flags then some (true_indices 0 flags) else none

  module _ (pb kept : List (RequestParameters F)) (indices : List ℕ)
      (rows : gather pb indices ≡ some kept) where
    warpers_part :
        AllOrdinary kept
        → filter_warpers f indices (warpers_of f (from_pb pb)).0
          ≡ some (warpers_of f (from_pb kept)).0
    unfolding warpers_of from_pb filter_warpers
    warpers_part ordinary =
        filter_warpers-add f indices f.below_one (not_one f) typical_warper _ _ _ _
          (gather-map (λ r. r.typical_p) pb kept indices rows) (typicals_agree kept ordinary) refl
          (filter_warpers-add f indices f.below_one f.below_one top_p_warper _ _ _ _
            (gather-map (λ r. r.top_p) pb kept indices rows) refl refl
            (filter_warpers-add f indices nonzero nonzero top_k_warper _ _ _ _
              (gather-map (λ r. r.top_k) pb kept indices rows) refl refl
              (filter_warpers-add f indices (warms f) (not_one f) temperature_warper _ _
                ([], map (λ r. r.do_sample) pb) ([], map (λ r. r.do_sample) kept)
                (gather-map (λ r. r.temperature) pb kept indices rows)
                (temperatures_agree kept ordinary) refl refl)))

    choice_part :
        filter_choice (map (samples f) kept) indices (choice_of pb) ≡ some (choice_of kept)
    unfolding choice_of
    choice_part = elim (Bool-cases (any (λ flag. flag) (map (samples f) pb))) [
      | inl e ↦
          rw (e, filter_sampling-new (samples f) (λ r. r.seed) pb 0 kept indices rows)
            (ground arith)
      | inr e ↦
          rw (
            e,
            any-gather (λ flag. flag) _ _ indices e (gather-map (samples f) pb kept indices rows),
          )
    ]

    watermark_part :
        (watermark_of pb >>= λ keys. nonempty (filter_keys keys 0 indices)) ≡ watermark_of kept
    unfolding watermark_of
    watermark_part = elim (Bool-cases (any (λ flag. flag) (map (λ r. r.watermark) pb))) [
      | inl e ↦
          rw (e, filter_keys-new (λ r. r.watermark) (λ r. r.seed) pb 0 kept indices rows)
            (nonempty-true_indices 0 (map (λ r. r.watermark) kept))
      | inr e ↦ rw (
        e,
        any-gather (λ flag. flag) _ _ indices e
            (gather-map (λ r. r.watermark) pb kept indices rows),
      )
    ]

    -- To filter a chooser is to choose anew for the requests that are kept: every processor, warper,
    -- seed, sample flag and generator is the one that they would get by themselves. It holds if no
    -- kept request has temperature 0, and none has a typical_p above 1; the schema processors are
    -- those of the kept rows.
    pub filter-new :
        {Schema : Type 0} (schemas kept_schemas : List (Option Schema))
        → gather schemas indices ≡ some kept_schemas
        → AllOrdinary kept
        → filter f indices (new f (from_pb pb) schemas) ≡ some (new f (from_pb kept) kept_schemas)
    unfolding filter new from_pb choice_of watermark_of
    filter-new schemas kept_schemas same ordinary = rw (
      warpers_of-samples f pb,
      warpers_of-samples f kept,
      filter_rows-new (not_one f) _ _ indices
          (gather-map (λ r. r.repetition_penalty) pb kept indices rows),
      filter_rows-new is_some schemas kept_schemas indices same,
      warpers_part ordinary,
      gather-map (λ r. r.seed) pb kept indices rows,
      gather-map (samples f) pb kept indices rows,
      choice_part,
      watermark_part,
    )
