-- ===== src/Tokens/Ngram/Laws.antt =====
-- The speculated ids are in range, and follow the first occurrence of the seed.
use lorax.Prelude.{
  gather, ℕ, zero, suc, ◌+◌, ◌-◌, ◌<◌, ◌≡◌, ◌≢◌, refl, min, arith, Bool, true, Option, some, List,
  [], ◌∷◌, map, ◌==◌, length, get_elem?,
}
use lorax.Tokens.Ngram.{arange, speculate_row}

-- torch documents that the index of the first maximal value is returned.
pub record IsFirstMax (max_index : List Bool → ℕ) : Type 0 where
  pub in_range : (row : List Bool) → 0 < length row → max_index row < length row
  pub is_max :
      (row : List Bool) (i : ℕ)
      → get_elem? row i ≡ some true
      → get_elem? row (max_index row) ≡ some true
  pub is_first :
      (row : List Bool) (i : ℕ)
      → i < max_index row
      → get_elem? row (max_index row) ≡ some true
      → get_elem? row i ≢ some true
  pub no_max : (row : List Bool) → ((i : ℕ) → get_elem? row i ≢ some true) → max_index row ≡ 0

-- The id at `start + k`, or at the last place if that is behind the end.
abbrev pub clamped : List ℕ → ℕ → ℕ → Option ℕ
clamped ids start k = get_elem? ids (min (start + k) (length ids - 1))

get_elem?-some : (ids : List ℕ) (i : ℕ) → i < length ids → (x : ℕ) × (get_elem? ids i ≡ some x)
get_elem?-some [] i h = absurd (omega arith)
get_elem?-some (x ∷ ids) zero h = (x, refl)
get_elem?-some (x ∷ ids) (suc i) h = get_elem?-some ids i (omega arith)

abbrev pub Follows : List ℕ → ℕ → List ℕ → Type 0
Follows ids start [] = Unit
Follows ids start (y ∷ ys) = (clamped ids start 0 ≡ some y) × Follows ids (start + 1) ys

gather-Follows :
    (ids : List ℕ) (start n : ℕ)
    → 0 < length ids
    → (ys : List ℕ) × (gather ids (map (λ i. min i (length ids - 1)) (arange start n)) ≡ some ys)
      × (length ys ≡ n)
      × Follows ids start ys
unfolding gather arange
gather-Follows ids start zero h = ([], refl, refl, tt)
gather-Follows ids start (suc n) h =
    let (y, e) = get_elem?-some ids (min (start + 0) (length ids - 1)) (omega arith) in
    let (ys, p, q, f) = gather-Follows ids (start + 1) n h in
    (y ∷ ys, ground (arith, e, p), omega arith, (e, f))

matches :
    (ids : List ℕ) (seed i : ℕ)
    → get_elem? ids i ≡ some seed
    → get_elem? (map (λ x. x == seed) ids) i ≡ some true
matches [] seed i h = ground arith
matches (x ∷ ids) seed zero h = ground arith
matches (x ∷ ids) seed (suc i) h = matches ids seed i h

matched :
    (ids : List ℕ) (seed i : ℕ)
    → get_elem? (map (λ x. x == seed) ids) i ≡ some true
    → get_elem? ids i ≡ some seed
matched [] seed i h = ground arith
matched (x ∷ ids) seed zero h = ground arith
matched (x ∷ ids) seed (suc i) h = matched ids seed i h

nonempty : (ids : List ℕ) (i x : ℕ) → get_elem? ids i ≡ some x → 0 < length ids
nonempty [] i x h = ground arith
nonempty (y ∷ ids) i x h = omega arith

module _ (max_index : List Bool → ℕ) (first : IsFirstMax max_index) where
  max_index-first :
      (ids : List ℕ) (seed p : ℕ)
      → get_elem? ids p ≡ some seed
      → ((i : ℕ) → i < p → get_elem? ids i ≢ some seed)
      → max_index (map (λ x. x == seed) ids) ≡ p
  max_index-first ids seed p here earlier =
      let row = map (λ x. x == seed) ids in
      let q = max_index row in
      let top = first.is_max row p (matches ids seed p here) in
      let not_before : ¬ (q < p) = λ h. earlier q h (matched ids seed q top) in
      let not_behind : ¬ (p < q) = λ h. first.is_first row p h top (matches ids seed p here) in
      omega arith

  -- If the last accepted token occurs in the row, first at `p`, the step succeeds and speculates
  -- exactly `n` ids: those that follow place `p`, the last id of the row standing for places
  -- behind its end.
  pub speculate_row-first :
      (ids : List ℕ) (seed p n : ℕ)
      → get_elem? ids p ≡ some seed
      → ((i : ℕ) → i < p → get_elem? ids i ≢ some seed)
      → (ys : List ℕ) × (speculate_row max_index n ids seed ≡ some ys)
        × (length ys ≡ n)
        × Follows ids (p + 1) ys
  unfolding speculate_row
  speculate_row-first ids seed p n here earlier =
      rw (max_index-first ids seed p here earlier)
        (gather-Follows ids (p + 1) n (nonempty ids p seed here))

  -- If it does not occur in a row that is not empty, the ids from the second place on are taken.
  speculate_row-absent :
      (ids : List ℕ) (seed n : ℕ)
      → 0 < length ids
      → ((i : ℕ) → get_elem? ids i ≢ some seed)
      → (ys : List ℕ) × (speculate_row max_index n ids seed ≡ some ys)
        × (length ys ≡ n)
        × Follows ids 1 ys
  unfolding speculate_row
  speculate_row-absent ids seed n h absent =
      rw (first.no_max (map (λ x. x == seed) ids) (λ i e. absent i (matched ids seed i e)))
        (gather-Follows ids 1 n h)
