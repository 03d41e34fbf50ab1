-- ===== src/Flash/Generate/Accepted.antt =====
-- The accepted tokens of each request: how they are split and where the last of them stands.
use lorax.Prelude.{
  ℕ, zero, suc, ◌+◌, ◌-◌, ◌<◌, ◌≡◌, refl, ap, sym, ◌∙◌, subst, arith, none, some, List, [], ◌∷◌,
  ◌++◌, append_assoc, append-nil, map, length, length-append, take, drop, take-append-drop, last?,
  get_elem?, gather, Option-cases, inl, inr,
}
use lorax.Tokens.Ngram.{cumsum, last_accepted}
use lorax.Flash.Prefill.Ends.{AllPositive, get_elem?-append}
use lorax.Flash.Generate.{Engine, Turn, split_ids, take_token, take_tokens}

-- Each of the lists ends in its id.
abbrev pub EndIn : List (List ℕ) → List ℕ → Type 0
EndIn [] [] = Unit
EndIn [] (id ∷ ids) = ⊥
EndIn (part ∷ parts) [] = ⊥
EndIn (part ∷ parts) (id ∷ ids) = (last? part ≡ some id) × EndIn parts ids

last?-get :
    (xs : List ℕ) (n : ℕ) (x : ℕ)
    → length xs ≡ n
    → 0 < n
    → get_elem? xs (n - 1) ≡ some x
    → last? xs ≡ some x
last?-get [] n x e pos h = absurd (omega (arith, e, pos))
last?-get (y ∷ []) n x e pos h =
    let first : n - 1 ≡ 0 = omega (arith, e) in sym (ap (get_elem? (y ∷ [])) first) ∙ h
last?-get (y ∷ z ∷ xs) n x e pos h =
    let next : n - 1 ≡ suc (n - 1 - 1) = omega (arith, e) in
    last?-get (z ∷ xs) (n - 1) x (omega (arith, e)) (omega (arith, e))
      (sym (ap (get_elem? (y ∷ z ∷ xs)) next) ∙ h)

get-take : (n i : ℕ) (xs : List ℕ) → i < n → get_elem? (take n xs) i ≡ get_elem? xs i
get-take zero i xs h = absurd (omega arith)
get-take (suc n) i [] h = refl
get-take (suc n) zero (x ∷ xs) h = refl
get-take (suc n) (suc i) (x ∷ xs) h = get-take n i xs (omega arith)

split_ids-cons :
    (n : ℕ) (ns next_ids : List ℕ) (parts : List (List ℕ))
    → split_ids (n ∷ ns) next_ids ≡ some parts
    → (rest : List (List ℕ)) × (split_ids ns (drop n next_ids) ≡ some rest)
      × (length (take n next_ids) ≡ n)
      × (parts ≡ take n next_ids ∷ rest)
unfolding split_ids
split_ids-cons n ns next_ids parts h = elim (Option-cases (split_ids ns (drop n next_ids))) [
  | inl e ↦ absurd (ground (arith, e, h))
  | inr (rest, e) ↦ (rest, e, ground (arith, e, h), ground (arith, e, h))
]

EndIn-gather :
    (pre ns next_ids ids : List ℕ) (parts : List (List ℕ))
    → AllPositive ns
    → split_ids ns next_ids ≡ some parts
    → gather (pre ++ next_ids) (map (λ n. n - 1) (cumsum (length pre) ns)) ≡ some ids
    → EndIn parts ids
unfolding cumsum gather split_ids
EndIn-gather pre [] next_ids ids parts pos split h =
    let none_given : [] ≡ ids = ground (arith, h) in
    let none_split : [] ≡ parts = ground (arith, split) in
    subst (EndIn parts) none_given (subst (λ ps. EndIn ps []) none_split tt)
EndIn-gather pre (n ∷ ns) next_ids ids parts pos split h =
    let (rest, behind, size, whole) = split_ids-cons n ns next_ids parts split in
    let all = pre ++ next_ids in
    let here : get_elem? all (length pre + n - 1) ≡ get_elem? (take n next_ids) (n - 1) =
      ap (get_elem? all) (omega (arith, pos.0))
      ∙ get_elem?-append pre next_ids (n - 1)
      ∙ sym (get-take n (n - 1) next_ids (omega (arith, pos.0))) in
    let moved : (pre ++ take n next_ids) ++ drop n next_ids ≡ all =
      append_assoc pre (take n next_ids) (drop n next_ids)
      ∙ ap (λ xs. pre ++ xs) (take-append-drop n next_ids) in
    let total : length (pre ++ take n next_ids) ≡ length pre + n =
      omega (arith, length-append pre (take n next_ids), size) in
    elim (Option-cases (gather all (map (λ n. n - 1) (cumsum (length pre + n) ns)))) [
      | inl fails ↦ absurd (ground (arith, fails, h))
      | inr (others, found) ↦ elim (Option-cases (get_elem? (take n next_ids) (n - 1))) [
        | inl fails ↦ absurd (ground (arith, fails, here, h))
        | inr (id, last) ↦
            let given : id ∷ others ≡ ids = ground (arith, h, found, here, last) in
            let tail =
              EndIn-gather (pre ++ take n next_ids) ns (drop n next_ids) others rest pos.1 behind
                (rw (moved, total) found) in
            subst (EndIn parts) given (
              subst (λ ps. EndIn ps (id ∷ others)) (sym whole)
                (last?-get (take n next_ids) n id size pos.0 last, tail))
      ]
    ]

-- If each request has accepted a token at least, the next `input_ids` are the last accepted ones.
pub last_accepted-EndIn :
    (ns next_ids ids : List ℕ) (parts : List (List ℕ))
    → AllPositive ns
    → split_ids ns next_ids ≡ some parts
    → gather next_ids (last_accepted ns) ≡ some ids
    → EndIn parts ids
unfolding last_accepted
last_accepted-EndIn ns next_ids ids parts pos split h =
    EndIn-gather [] ns next_ids ids parts pos split h

module _ {F Schema : Type 0} (e : Engine F Schema) where
  -- A request that no token has stopped has got all of its accepted tokens.
  pub take_tokens-all :
      (accepted : List ℕ) (t : Turn)
      → (take_tokens e accepted t).1.reason ≡ none
      → (take_tokens e accepted t).1.ids ≡ t.ids ++ accepted
  unfolding take_tokens take_token
  take_tokens-all [] t h = sym (append-nil t.ids)
  take_tokens-all (id ∷ accepted) t h = elim (Option-cases (take_token e id t).reason) [
    | inl goes_on ↦
        let more : (take_tokens e accepted (take_token e id t)).1.reason ≡ none =
          ground (arith, goes_on, h) in
        ground (
          arith,
          goes_on,
          take_tokens-all accepted (take_token e id t) more,
          append_assoc t.ids (id ∷ []) accepted,
        )
    | inr (reason, stops) ↦ absurd (ground (arith, stops, h))
  ]
