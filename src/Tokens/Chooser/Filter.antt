-- ===== src/Tokens/Chooser/Filter.antt =====
-- What each step of a chooser's `filter` keeps.
use lorax.Prelude.{
  lookup, ℕ, zero, suc, ◌+◌, ◌<◌, ◌≡◌, refl, ap, ◌∙◌, Bool, true, false, Option, none, some, List,
  [], ◌∷◌, ◌++◌, map, append-nil, ◌==◌, if◌then◌else◌, gather, gather-cons, get_elem?, ◌>>=◌, arith,
  Bool-cases, Option-cases, inl, inr,
}
use lorax.Tokens.Chooser.{
  FloatTests, any, true_indices, new_sampling, filter_sampling, Warper, filter_keys, nonempty,
  filter_rows, add_warper, keep_if, cons_some, filter_warper, filter_warpers,
}

any-get :
    {A : Type 0} (q : A → Bool) (xs : List A) (i : ℕ) (x : A)
    → any q xs ≡ false
    → get_elem? xs i ≡ some x
    → q x ≡ false
any-get q [] i x h e = ground arith
any-get q (y ∷ xs) zero x h e = ground arith
any-get q (y ∷ xs) (suc i) x h e = any-get q xs i x (ground arith) e

-- What no row passes, no kept row passes.
pub any-gather :
    {A : Type 0} (q : A → Bool) (xs kept : List A) (indices : List ℕ)
    → any q xs ≡ false
    → gather xs indices ≡ some kept
    → any q kept ≡ false
unfolding gather
any-gather q xs kept [] h e = ground arith
any-gather q xs kept (i ∷ indices) h e = elim (Option-cases (get_elem? xs i)) [
  | inl e' ↦ ground arith
  | inr (x, e') ↦ elim (Option-cases (gather xs indices)) [
    | inl e'' ↦ ground arith
    | inr (rest, e'') ↦ ground (arith, any-get q xs i x h e', any-gather q xs rest indices h e'')
  ]
]

pub filter_rows-new :
    {A : Type 0} (q : A → Bool) (xs kept : List A) (indices : List ℕ)
    → gather xs indices ≡ some kept
    → filter_rows q indices (if any q xs then some xs else none)
      ≡ some (if any q kept then some kept else none)
filter_rows-new q xs kept indices h = elim (Bool-cases (any q xs)) [
  | inl e ↦ rw (e, h)
  | inr e ↦ rw (e, any-gather q xs kept indices e h)
]

module _ {F : Type 0} (f : FloatTests F) (indices : List ℕ) where
  filter_warpers-snoc :
      (ws ws' : List (Warper F)) (w : Warper F) (o : Option (Warper F))
      → filter_warpers f indices ws ≡ some ws'
      → filter_warper f indices w ≡ some o
      → filter_warpers f indices (ws ++ w ∷ []) ≡ some (ws' ++ cons_some o [])
  unfolding filter_warpers
  filter_warpers-snoc [] ws' w o h e = ground arith
  filter_warpers-snoc (v ∷ ws) ws' w o h e = elim (Option-cases (filter_warper f indices v)) [
    | inl e' ↦ ground arith
    | inr (v', e') ↦ elim (Option-cases (filter_warpers f indices ws)) [
      | inl e'' ↦ ground arith
      | inr (rest, e'') ↦ ground (arith, filter_warpers-snoc ws rest w o e'' e)
    ]
  ]

  snoc-if :
      (b : Bool) (ws : List (Warper F)) (w : Warper F) (flags flags' : List Bool)
      → ◌≡◌ {A = Option (List (Warper F))}
          (some (ws ++ cons_some (if b then some w else none) []))
          (some
            (if◌then◌else◌ {A = List (Warper F) × List Bool} b
              (ws ++ w ∷ [], flags)
              (ws, flags')).0)
  snoc-if true ws w flags flags' = refl
  snoc-if false ws w flags flags' = ap some (append-nil ws)

  pub filter_warpers-add :
      {A : Type 0} (p q : A → Bool) (make : List A → Warper F) (xs kept : List A)
      (ws ws' : List (Warper F) × List Bool)
      → gather xs indices ≡ some kept
      → any q kept ≡ any p kept
      → filter_warper f indices (make xs) ≡ keep_if q make (gather xs indices)
      → filter_warpers f indices ws.0 ≡ some ws'.0
      → filter_warpers f indices (add_warper p make xs ws).0 ≡ some (add_warper p make kept ws').0
  filter_warpers-add p q make xs kept (ws, flags) (ws', flags') h agree e k =
      elim (Bool-cases (any p xs)) [
        | inl some_row ↦ rw some_row (
            filter_warpers-snoc ws ws' (make xs) _ k (rw h at e)
            ∙ rw agree (snoc-if (any p kept) ws' (make kept) _ flags'))
        | inr no_row ↦ rw (no_row, any-gather p xs kept indices no_row h) k
      ]

-- The sampling choice.
module _ {R : Type 0} (g : R → Bool) (s : R → ℕ) where
  lookup-below :
      (j k : ℕ) (rows : List R)
      → k < j
      → lookup k (new_sampling j (map g rows) (map s rows)).sampling_mapping ≡ none
  unfolding lookup new_sampling
  lookup-below j k [] h = refl
  lookup-below j k (r ∷ rows) h = ground (arith, lookup-below (j + 1) k rows)

  lookup-new :
      (j k : ℕ) (rows : List R)
      → lookup (j + k) (new_sampling j (map g rows) (map s rows)).sampling_mapping
        ≡ (get_elem? rows k >>= λ r. if g r then some (s r) else none)
  unfolding lookup new_sampling
  lookup-new j k [] = refl
  lookup-new j zero (r ∷ rows) = ground (arith, lookup-below (j + 1) (j + 0) rows)
  lookup-new j (suc k) (r ∷ rows) = ground (arith, lookup-new (j + 1) k rows)

  any-keys :
      (j k : ℕ) (rows : List R) → k < j → any (λ i. i == k) (true_indices j (map g rows)) ≡ false
  unfolding true_indices
  any-keys j k [] h = refl
  any-keys j k (r ∷ rows) h = ground (arith, any-keys (j + 1) k rows)

  any-keys-new :
      (j k : ℕ) (rows : List R)
      → any (λ i. i == j + k) (true_indices j (map g rows))
        ≡ (elim (get_elem? rows k) [ none ↦ false | some r ↦ g r ])
  unfolding true_indices
  any-keys-new j k [] = refl
  any-keys-new j zero (r ∷ rows) = ground (arith, any-keys (j + 1) (j + 0) rows)
  any-keys-new j (suc k) (r ∷ rows) = ground (arith, any-keys-new (j + 1) k rows)

  module _ (rows : List R) where
    pub filter_sampling-new :
        (i : ℕ) (kept : List R) (indices : List ℕ)
        → gather rows indices ≡ some kept
        → filter_sampling (new_sampling 0 (map g rows) (map s rows)).sampling_mapping i indices
          ≡ new_sampling i (map g kept) (map s kept)
    unfolding filter_sampling new_sampling gather
    filter_sampling-new i [] [] h = refl
    filter_sampling-new i (x ∷ kept) [] h = ground arith
    filter_sampling-new i kept (idx ∷ indices) h =
        let (x, rest, e, p, q) = gather-cons rows idx indices kept h in
        let here = lookup-new 0 idx rows in
        rw q (ground (arith, e, here, filter_sampling-new (i + 1) rest indices p))

    pub filter_keys-new :
        (i : ℕ) (kept : List R) (indices : List ℕ)
        → gather rows indices ≡ some kept
        → filter_keys (true_indices 0 (map g rows)) i indices ≡ true_indices i (map g kept)
    unfolding filter_keys true_indices gather
    filter_keys-new i [] [] h = refl
    filter_keys-new i (x ∷ kept) [] h = ground arith
    filter_keys-new i kept (idx ∷ indices) h =
        let (x, rest, e, p, q) = gather-cons rows idx indices kept h in
        let here = any-keys-new 0 idx rows in
        rw q (ground (arith, e, filter_keys-new (i + 1) rest indices p))

pub nonempty-true_indices :
    (i : ℕ) (flags : List Bool)
    → nonempty (true_indices i flags)
      ≡ (if any (λ flag. flag) flags then some (true_indices i flags) else none)
unfolding true_indices
nonempty-true_indices i [] = refl
nonempty-true_indices i (true ∷ flags) = refl
nonempty-true_indices i (false ∷ flags) = nonempty-true_indices (i + 1) flags
