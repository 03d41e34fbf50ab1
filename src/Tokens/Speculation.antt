-- ===== src/Tokens/Speculation.antt =====
-- The speculative part of `HeterogeneousNextTokenChooser.__call__` of
-- server/lorax_server/utils/tokens.py: which of the verified tokens are kept.
pub mod Rows
pub mod Decoding
use mathlib.Core.Option
use lorax.Prelude.{
  ℕ, zero, suc, ◌+◌, ◌-◌, ◌*◌, ◌≡◌, Bool, true, false, Option, none, some, List, [], ◌∷◌, ◌++◌, map,
  ◌==◌, if◌then◌else◌, length, take, drop, init, gather, get_elem?, ◌>>=◌,
}

-- `next_ids_i[:-1] == speculated_ids_i`
pub validate : List ℕ → List ℕ → List Bool
validate [] speculated = []
validate (n ∷ []) speculated = []
validate (n ∷ m ∷ ns) [] = []
validate (n ∷ m ∷ ns) (s ∷ speculated) = (n == s) ∷ validate (m ∷ ns) speculated

-- The inner loop, with its `break`: the indices that it appends, and `accepted`.
pub accept : ℕ → ℕ → List Bool → List ℕ × ℕ
accept index accepted [] = ([], accepted)
accept index accepted (valid ∷ rest) =
    let (indices, n) = accept (index + 1) (accepted + 1) rest in
    if valid then ((index + 1) ∷ indices, n) else ([], accepted)

-- One round of the outer loop, for a row of `next_ids` that begins at `index`.
pub accept_row : ℕ → List ℕ → List ℕ → List ℕ × ℕ
unfolding accept validate
accept_row index next_ids_i speculated_ids_i =
    let (indices, accepted) = accept index 1 (validate next_ids_i speculated_ids_i) in
    (index ∷ indices, accepted)

-- `size` is S, one more than the number of speculated tokens; `i` counts the rows.
pub accept_rows : ℕ → ℕ → List ℕ → List (List ℕ) → List ℕ × List ℕ
accept_rows size i next_ids [] = ([], [])
accept_rows size i next_ids (speculated_ids_i ∷ speculated_ids) =
    let (indices, accepted) =
      accept_row (i * size) (take size (drop (i * size) next_ids)) speculated_ids_i in
    let (more, accepted_ids) = accept_rows size (i + 1) next_ids speculated_ids in
    (indices ++ more, accepted ∷ accepted_ids)

-- The tokens that are kept, `next_ids[indices]`, and the number for each row.
pub speculative_accept : ℕ → List ℕ → List (List ℕ) → Option (List ℕ × List ℕ)
speculative_accept size next_ids speculated_ids =
    let (indices, accepted_ids) = accept_rows size 0 next_ids speculated_ids in
    Option.map (λ kept. (kept, accepted_ids)) (gather next_ids indices)
