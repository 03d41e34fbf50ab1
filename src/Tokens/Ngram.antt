-- ===== src/Tokens/Ngram.antt =====
-- `ngram_speculate` of server/lorax_server/utils/tokens.py, on one row of `input_ids`.
pub mod Laws
use lorax.Prelude.{
  gather, ℕ, zero, suc, ◌+◌, ◌-◌, min, Bool, true, false, Option, none, some, List, [], ◌∷◌, ◌++◌,
  map, ◌==◌, if◌then◌else◌, length, ◌>>=◌,
}

-- `accepted_ids.cumsum(dim=-1) - 1`: where each request's last accepted token stands in `next_ids`.
unfoldable pub cumsum : ℕ → List ℕ → List ℕ
cumsum total [] = []
cumsum total (n ∷ ns) = (total + n) ∷ cumsum (total + n) ns

unfoldable pub last_accepted : List ℕ → List ℕ
unfolding cumsum
last_accepted accepted_ids = map (λ n. n - 1) (cumsum 0 accepted_ids)

-- `torch.arange(n) + start`
unfoldable pub arange : ℕ → ℕ → List ℕ
arange start zero = []
arange start (suc n) = start ∷ arange (start + 1) n

-- `max(dim=1).indices` of a row of Booleans is the argument `max_index`, which torch implements.
module _ (max_index : List Bool → ℕ) where
  -- `indices`, one behind a match of the seed
  pub match_index : List ℕ → ℕ → ℕ
  match_index input_ids seed = max_index (map (λ x. x == seed) input_ids) + 1

  -- `all_indices`, clamped, and the ids gathered there.
  pub speculate_row : ℕ → List ℕ → ℕ → Option (List ℕ)
  unfolding match_index arange gather
  speculate_row speculate input_ids seed =
      gather input_ids
        (map (λ i. min i (length input_ids - 1)) (arange (match_index input_ids seed) speculate))

  pub speculate_rows : ℕ → List (List ℕ) → List ℕ → Option (List (List ℕ))
  speculate_rows speculate [] seeds = some []
  speculate_rows speculate (row ∷ rows) [] = none
  speculate_rows speculate (row ∷ rows) (seed ∷ seeds) = do
    ids ← speculate_row speculate row seed
    rest ← speculate_rows speculate rows seeds
    some (ids ∷ rest)

  pub ngram_speculate : List (List ℕ) → List ℕ → List ℕ → ℕ → Option (List (List ℕ))
  unfolding last_accepted speculate_rows speculate_row
  ngram_speculate input_ids next_ids accepted_ids speculate = do
    seeds ← gather next_ids (last_accepted accepted_ids)
    speculate_rows speculate input_ids seeds
