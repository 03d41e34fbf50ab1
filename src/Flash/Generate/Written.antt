-- ===== src/Flash/Generate/Written.antt =====
-- What the first loop of `generate_token` writes to `all_input_ids_tensor`.
use lorax.Prelude.{
  ℕ, zero, suc, ◌+◌, ◌≡◌, refl, ap, ap₂, sym, ◌∙◌, arith, some, List, [], ◌∷◌, ◌++◌, subst,
  append_assoc, append-nil, length, take, get_elem?, Option-cases, inl, inr,
}
use lorax.Flash.Generate.{set_at, write_ids, write_rows}

take-set_at : (n x : ℕ) (row row' : List ℕ) → set_at n x row ≡ some row' → take n row' ≡ take n row
unfolding set_at
take-set_at n x [] row' h = absurd (ground (arith, h))
take-set_at zero x (y ∷ row) row' h = refl
take-set_at (suc n) x (y ∷ row) row' h = elim (Option-cases (set_at n x row)) [
  | inl e ↦ absurd (ground (arith, e, h))
  | inr (zs, e) ↦ ground (arith, e, h, take-set_at n x row zs e)
]

take-set_at_next :
    (n x : ℕ) (row row' : List ℕ)
    → set_at n x row ≡ some row'
    → take (n + 1) row' ≡ take n row ++ x ∷ []
unfolding set_at
take-set_at_next n x [] row' h = absurd (ground (arith, h))
take-set_at_next zero x (y ∷ row) row' h = ground (arith, h)
take-set_at_next (suc n) x (y ∷ row) row' h = elim (Option-cases (set_at n x row)) [
  | inl e ↦ absurd (ground (arith, e, h))
  | inr (zs, e) ↦ ground (arith, e, h, take-set_at_next n x row zs e)
]

take-write_ids :
    (i : ℕ) (ids row row' : List ℕ)
    → write_ids i ids row ≡ some row'
    → take (i + length ids) row' ≡ take i row ++ ids
unfolding write_ids
take-write_ids i [] row row' h =
    let same : row' ≡ row = ground (arith, h) in
    ap₂ take (omega arith) same ∙ sym (append-nil (take i row))
take-write_ids i (id ∷ ids) row row' h = elim (Option-cases (set_at i id row)) [
  | inl e ↦ absurd (ground (arith, e, h))
  | inr (w, e) ↦
      let count : i + suc (length ids) ≡ i + 1 + length ids = omega arith in
      let rest : write_ids (i + 1) ids w ≡ some row' = ground (arith, e, h) in
      ap (λ n. take n row') count
      ∙ take-write_ids (i + 1) ids w row' rest
      ∙ ap (λ xs. xs ++ ids) (take-set_at_next i id row w e)
      ∙ append_assoc (take i row) (id ∷ []) ids
]

write_rows-cons :
    (next_ids : List ℕ) (i n : ℕ) (ns ids : List ℕ) (accepted : List (List ℕ)) (row : List ℕ)
    (rows rows' : List (List ℕ))
    → write_rows next_ids i (n ∷ ns) (ids ∷ accepted) (row ∷ rows) ≡ some rows'
    → (id : ℕ) × (row1 : List ℕ) × (row2 : List ℕ) × (rest : List (List ℕ)) × (set_at n id row
        ≡ some row1)
      × (write_ids n ids row1 ≡ some row2)
      × (write_rows next_ids (i + 1) ns accepted rows ≡ some rest)
      × (row2 ∷ rest ≡ rows')
unfolding write_rows
write_rows-cons next_ids i n ns ids accepted row rows rows' h =
    elim (Option-cases (get_elem? next_ids i)) [
      | inl e ↦ absurd (ground (arith, e, h))
      | inr (id, e) ↦ elim (Option-cases (set_at n id row)) [
        | inl e1 ↦ absurd (ground (arith, e, e1, h))
        | inr (row1, e1) ↦ elim (Option-cases (write_ids n ids row1)) [
          | inl e2 ↦ absurd (ground (arith, e, e1, e2, h))
          | inr (row2, e2) ↦ elim (Option-cases (write_rows next_ids (i + 1) ns accepted rows)) [
            | inl e3 ↦ absurd (ground (arith, e, e1, e2, e3, h))
            | inr (rest, e3) ↦ (id, row1, row2, rest, e1, e2, e3, ground (arith, e, e1, e2, e3, h))
          ]
        ]
      ]
    ]

-- Each row has the accepted ids behind the tokens that it had.
abbrev pub Written : List ℕ → List (List ℕ) → List (List ℕ) → List (List ℕ) → Type 0
Written [] accepted rows rows' = Unit
Written (n ∷ ns) [] rows rows' = Unit
Written (n ∷ ns) (ids ∷ accepted) (row ∷ rows) (row' ∷ rows') =
    (take (n + length ids) row' ≡ take n row ++ ids) × Written ns accepted rows rows'
Written (n ∷ ns) (ids ∷ accepted) _ _ = ⊥

pub write_rows-Written :
    (next_ids : List ℕ) (i : ℕ) (ns : List ℕ) (accepted rows rows' : List (List ℕ))
    → write_rows next_ids i ns accepted rows ≡ some rows'
    → Written ns accepted rows rows'
unfolding write_rows
write_rows-Written next_ids i [] accepted rows rows' h = tt
write_rows-Written next_ids i (n ∷ ns) [] rows rows' h = tt
write_rows-Written next_ids i (n ∷ ns) (ids ∷ accepted) [] rows' h = absurd (ground (arith, h))
write_rows-Written next_ids i (n ∷ ns) (ids ∷ accepted) (row ∷ rows) rows' h =
    let (id, row1, row2, rest, set, wrote, behind, whole) =
      write_rows-cons next_ids i n ns ids accepted row rows rows' h in
    subst (Written (n ∷ ns) (ids ∷ accepted) (row ∷ rows)) whole (
      take-write_ids n ids row1 row2 wrote ∙ ap (λ xs. xs ++ ids) (take-set_at n id row row1 set),
      write_rows-Written next_ids (i + 1) ns accepted rows rest behind,
    )
